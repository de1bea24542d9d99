-- ===== src/PerfectHash/Bits/Halves.antt =====
-- CountValidSlot: the mask that leaves the low half of each byte.
use protocache.Base.{
  ℕ, zero, suc, ◌+◌, ◌*◌, ◌/◌, ◌%◌, ◌≤◌, ◌≡◌, refl, ◌∙◌, bit_and, bit_and-zero, arith,
}
use protocache.PerfectHash.Bits.Nibbles.{full, fifteens, bit_and-fifteens}

pub full-le : (x : ℕ) → full x ≤ 2
full-le x = ground arith

-- The halves of the bytes that are left of a sum of two.
unfoldable pub low_halves : ℕ → ℕ → ℕ
low_halves zero z = 0
low_halves (suc k) z = z % 16 + 256 * low_halves k (z / 256)

pub low_halves_lem : (k z : ℕ) → bit_and z (fifteens k) ≡ low_halves k z
unfolding low_halves
low_halves_lem zero z = bit_and-zero z
low_halves_lem (suc k) z = bit_and-fifteens k z ∙ omega (arith, low_halves_lem k (z / 256))

low_halves-suc :
    (k a c rest : ℕ)
    → a ≤ 8
    → c ≤ 8
    → low_halves (suc k) (a + 16 * c + 256 * rest) ≡ a + 256 * low_halves k rest
unfolding low_halves
low_halves-suc k a c rest ha hc =
    let e : (a + 16 * c + 256 * rest) % 16 ≡ a = omega arith in
    let e' : (a + 16 * c + 256 * rest) / 256 ≡ rest = omega arith in rw (e, e') refl

module _ (a0 a1 a2 a3 a4 a5 a6 a7 c0 c1 c2 c3 c4 c5 c6 c7 : ℕ) (a0_le : a0 ≤ 8) (a1_le : a1 ≤ 8)
    (a2_le : a2 ≤ 8) (a3_le : a3 ≤ 8) (a4_le : a4 ≤ 8) (a5_le : a5 ≤ 8) (a6_le : a6 ≤ 8)
    (a7_le : a7 ≤ 8) (c0_le : c0 ≤ 8) (c1_le : c1 ≤ 8) (c2_le : c2 ≤ 8) (c3_le : c3 ≤ 8)
    (c4_le : c4 ≤ 8) (c5_le : c5 ≤ 8) (c6_le : c6 ≤ 8) (c7_le : c7 ≤ 8) where
  pub low_halves_digits :
      low_halves 8 (
        a0
        + 16 * c0
        + 256
          * (a1
              + 16 * c1
              + 256
                * (a2
                    + 16 * c2
                    + 256
                      * (a3
                          + 16 * c3
                          + 256
                            * (a4
                                + 16 * c4
                                + 256
                                  * (a5
                                      + 16 * c5
                                      + 256
                                        * (a6 + 16 * c6 + 256 * (a7 + 16 * c7 + 256 * (0)))))))))
      ≡ a0
        + 256
          * (a1
              + 256
                * (a2 + 256 * (a3 + 256 * (a4 + 256 * (a5 + 256 * (a6 + 256 * (a7 + 256 * (0))))))))
  unfolding low_halves
  low_halves_digits =
      rw
        (
          low_halves-suc 7 a0 c0
              (a1
                + 16 * c1
                + 256
                  * (a2
                      + 16 * c2
                      + 256
                        * (a3
                            + 16 * c3
                            + 256
                              * (a4
                                  + 16 * c4
                                  + 256
                                    * (a5
                                        + 16 * c5
                                        + 256
                                          * (a6 + 16 * c6 + 256 * (a7 + 16 * c7 + 256 * (0))))))))
              a0_le c0_le,
          low_halves-suc 6 a1 c1
              (a2
                + 16 * c2
                + 256
                  * (a3
                      + 16 * c3
                      + 256
                        * (a4
                            + 16 * c4
                            + 256
                              * (a5
                                  + 16 * c5
                                  + 256 * (a6 + 16 * c6 + 256 * (a7 + 16 * c7 + 256 * (0)))))))
              a1_le c1_le,
          low_halves-suc 5 a2 c2
              (a3
                + 16 * c3
                + 256
                  * (a4
                      + 16 * c4
                      + 256
                        * (a5 + 16 * c5 + 256 * (a6 + 16 * c6 + 256 * (a7 + 16 * c7 + 256 * (0))))))
              a2_le c2_le,
          low_halves-suc 4 a3 c3
              (a4
                + 16 * c4
                + 256 * (a5 + 16 * c5 + 256 * (a6 + 16 * c6 + 256 * (a7 + 16 * c7 + 256 * (0)))))
              a3_le c3_le,
          low_halves-suc 3 a4 c4
              (a5 + 16 * c5 + 256 * (a6 + 16 * c6 + 256 * (a7 + 16 * c7 + 256 * (0)))) a4_le c4_le,
          low_halves-suc 2 a5 c5 (a6 + 16 * c6 + 256 * (a7 + 16 * c7 + 256 * (0))) a5_le c5_le,
          low_halves-suc 1 a6 c6 (a7 + 16 * c7 + 256 * (0)) a6_le c6_le,
          low_halves-suc 0 a7 c7 (0) a7_le c7_le,
        )
        refl
