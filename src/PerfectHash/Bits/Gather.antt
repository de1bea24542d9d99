-- ===== src/PerfectHash/Bits/Gather.antt =====
-- CountValidSlot from the counts of the half bytes on: pairs, fours and eights of them are added up.
use protocache.Base.{ℕ, ◌+◌, ◌-◌, ◌*◌, ◌/◌, ◌%◌, ◌^◌, ◌≤◌, ◌≡◌, ap, ◌∙◌, arith}
use protocache.PerfectHash.Bits.Halves.{low_halves, low_halves_digits}

-- From the counts of the half bytes on.
unfoldable pub gather : ℕ → ℕ
gather v =
    let v = (v + v / 2 ^ 4) % 2 ^ 64 in
    let v = (v + v / 2 ^ 8) % 2 ^ 64 in
    let v = (low_halves 8 v + low_halves 8 (v / 2 ^ 16)) % 2 ^ 64 in
    let v = (v + v / 2 ^ 32) % 2 ^ 64 in (2 ^ 32 + 32 - v % 256) % 2 ^ 32

-- The steps on the sixteen counts, as digits.
module _ (n0 n1 n2 n3 n4 n5 n6 n7 n8 n9 n10 n11 n12 n13 n14 n15 : ℕ) (h0 : n0 ≤ 2) (h1 : n1 ≤ 2)
    (h2 : n2 ≤ 2) (h3 : n3 ≤ 2) (h4 : n4 ≤ 2) (h5 : n5 ≤ 2) (h6 : n6 ≤ 2) (h7 : n7 ≤ 2)
    (h8 : n8 ≤ 2) (h9 : n9 ≤ 2) (h10 : n10 ≤ 2) (h11 : n11 ≤ 2) (h12 : n12 ≤ 2) (h13 : n13 ≤ 2)
    (h14 : n14 ≤ 2) (h15 : n15 ≤ 2) where
  abbrev pub counts : ℕ
  counts =
      n0
      + 16
        * (n1
            + 16
              * (n2
                  + 16
                    * (n3
                        + 16
                          * (n4
                              + 16
                                * (n5
                                    + 16
                                      * (n6
                                          + 16
                                            * (n7
                                                + 16
                                                  * (n8
                                                      + 16
                                                        * (n9
                                                            + 16
                                                            * (n10
                                                            + 16
                                                            * (n11
                                                            + 16
                                                            * (n12
                                                            + 16
                                                            * (n13
                                                            + 16 * (n14 + 16 * (n15)))))))))))))))

  abbrev twos : ℕ
  twos =
      (n0 + n1)
      + 16
        * ((n1 + n2)
            + 16
              * ((n2 + n3)
                  + 16
                    * ((n3 + n4)
                        + 16
                          * ((n4 + n5)
                              + 16
                                * ((n5 + n6)
                                    + 16
                                      * ((n6 + n7)
                                          + 16
                                            * ((n7 + n8)
                                                + 16
                                                  * ((n8 + n9)
                                                      + 16
                                                        * ((n9 + n10)
                                                            + 16
                                                            * ((n10 + n11)
                                                            + 16
                                                            * ((n11 + n12)
                                                            + 16
                                                            * ((n12 + n13)
                                                            + 16
                                                            * ((n13 + n14)
                                                            + 16
                                                            * ((n14 + n15)
                                                            + 16 * (n15)))))))))))))))

  abbrev fours : ℕ
  fours =
      ((n0 + n1 + n2 + n3) + 16 * (n1 + n2 + n3 + n4))
      + 256
        * (((n2 + n3 + n4 + n5) + 16 * (n3 + n4 + n5 + n6))
            + 256
              * (((n4 + n5 + n6 + n7) + 16 * (n5 + n6 + n7 + n8))
                  + 256
                    * (((n6 + n7 + n8 + n9) + 16 * (n7 + n8 + n9 + n10))
                        + 256
                          * (((n8 + n9 + n10 + n11) + 16 * (n9 + n10 + n11 + n12))
                              + 256
                                * (((n10 + n11 + n12 + n13) + 16 * (n11 + n12 + n13 + n14))
                                    + 256
                                      * (((n12 + n13 + n14 + n15) + 16 * (n13 + n14 + n15))
                                          + 256 * (((n14 + n15) + 16 * (n15)))))))))

  abbrev eights : ℕ
  eights =
      ((n0 + n1 + n2 + n3) + (n4 + n5 + n6 + n7))
      + 256
        * (((n2 + n3 + n4 + n5) + (n6 + n7 + n8 + n9))
            + 256
              * (((n4 + n5 + n6 + n7) + (n8 + n9 + n10 + n11))
                  + 256
                    * (((n6 + n7 + n8 + n9) + (n10 + n11 + n12 + n13))
                        + 256
                          * (((n8 + n9 + n10 + n11) + (n12 + n13 + n14 + n15))
                              + 256
                                * (((n10 + n11 + n12 + n13) + (n14 + n15))
                                    + 256 * ((n12 + n13 + n14 + n15) + 256 * ((n14 + n15))))))))

  twos_lem : (counts + counts / 2 ^ 4) % 2 ^ 64 ≡ twos
  twos_lem = omega arith

  fours_lem : (twos + twos / 2 ^ 8) % 2 ^ 64 ≡ fours
  fours_lem = omega arith

  low_lem :
      low_halves 8 fours
      ≡ (n0 + n1 + n2 + n3)
        + 256
          * ((n2 + n3 + n4 + n5)
              + 256
                * ((n4 + n5 + n6 + n7)
                    + 256
                      * ((n6 + n7 + n8 + n9)
                          + 256
                            * ((n8 + n9 + n10 + n11)
                                + 256
                                  * ((n10 + n11 + n12 + n13)
                                      + 256
                                        * ((n12 + n13 + n14 + n15)
                                            + 256 * ((n14 + n15) + 256 * (0))))))))
  low_lem =
      let e : fours
          ≡ (n0 + n1 + n2 + n3)
            + 16 * (n1 + n2 + n3 + n4)
            + 256
              * ((n2 + n3 + n4 + n5)
                  + 16 * (n3 + n4 + n5 + n6)
                  + 256
                    * ((n4 + n5 + n6 + n7)
                        + 16 * (n5 + n6 + n7 + n8)
                        + 256
                          * ((n6 + n7 + n8 + n9)
                              + 16 * (n7 + n8 + n9 + n10)
                              + 256
                                * ((n8 + n9 + n10 + n11)
                                    + 16 * (n9 + n10 + n11 + n12)
                                    + 256
                                      * ((n10 + n11 + n12 + n13)
                                          + 16 * (n11 + n12 + n13 + n14)
                                          + 256
                                            * ((n12 + n13 + n14 + n15)
                                                + 16 * (n13 + n14 + n15)
                                                + 256
                                                  * ((n14 + n15) + 16 * (n15) + 256 * (0)))))))) =
        omega arith in
      ap (low_halves 8) e
      ∙ low_halves_digits (n0 + n1 + n2 + n3) (n2 + n3 + n4 + n5) (n4 + n5 + n6 + n7)
          (n6 + n7 + n8 + n9) (n8 + n9 + n10 + n11) (n10 + n11 + n12 + n13) (n12 + n13 + n14 + n15)
          (n14 + n15) (n1 + n2 + n3 + n4) (n3 + n4 + n5 + n6) (n5 + n6 + n7 + n8)
          (n7 + n8 + n9 + n10) (n9 + n10 + n11 + n12) (n11 + n12 + n13 + n14) (n13 + n14 + n15)
          (n15) (omega arith) (omega arith) (omega arith) (omega arith) (omega arith) (omega arith)
          (omega arith) (omega arith) (omega arith) (omega arith) (omega arith) (omega arith)
          (omega arith) (omega arith) (omega arith) (omega arith)

  high_lem :
      low_halves 8 (fours / 2 ^ 16)
      ≡ (n4 + n5 + n6 + n7)
        + 256
          * ((n6 + n7 + n8 + n9)
              + 256
                * ((n8 + n9 + n10 + n11)
                    + 256
                      * ((n10 + n11 + n12 + n13)
                          + 256
                            * ((n12 + n13 + n14 + n15)
                                + 256 * ((n14 + n15) + 256 * (0 + 256 * (0 + 256 * (0))))))))
  high_lem =
      let e : fours / 2 ^ 16
          ≡ (n4 + n5 + n6 + n7)
            + 16 * (n5 + n6 + n7 + n8)
            + 256
              * ((n6 + n7 + n8 + n9)
                  + 16 * (n7 + n8 + n9 + n10)
                  + 256
                    * ((n8 + n9 + n10 + n11)
                        + 16 * (n9 + n10 + n11 + n12)
                        + 256
                          * ((n10 + n11 + n12 + n13)
                              + 16 * (n11 + n12 + n13 + n14)
                              + 256
                                * ((n12 + n13 + n14 + n15)
                                    + 16 * (n13 + n14 + n15)
                                    + 256
                                      * ((n14 + n15)
                                          + 16 * (n15)
                                          + 256
                                            * (0 + 16 * 0 + 256 * (0 + 16 * 0 + 256 * (0)))))))) =
        omega arith in
      ap (low_halves 8) e
      ∙ low_halves_digits (n4 + n5 + n6 + n7) (n6 + n7 + n8 + n9) (n8 + n9 + n10 + n11)
          (n10 + n11 + n12 + n13) (n12 + n13 + n14 + n15) (n14 + n15) 0 0 (n5 + n6 + n7 + n8)
          (n7 + n8 + n9 + n10) (n9 + n10 + n11 + n12) (n11 + n12 + n13 + n14) (n13 + n14 + n15)
          (n15) 0 0 (omega arith) (omega arith) (omega arith) (omega arith) (omega arith)
          (omega arith) (omega arith) (omega arith) (omega arith) (omega arith) (omega arith)
          (omega arith) (omega arith) (omega arith) (omega arith) (omega arith)

  eights_lem : (low_halves 8 fours + low_halves 8 (fours / 2 ^ 16)) % 2 ^ 64 ≡ eights
  eights_lem = rw (low_lem, high_lem) (omega arith)

  total_lem :
      (2 ^ 32 + 32 - (eights + eights / 2 ^ 32) % 2 ^ 64 % 256) % 2 ^ 32
      ≡ 32 - (n0 + n1 + n2 + n3 + n4 + n5 + n6 + n7 + n8 + n9 + n10 + n11 + n12 + n13 + n14 + n15)
  total_lem = omega arith

  pub gather_lem :
      gather counts
      ≡ 32 - (n0 + n1 + n2 + n3 + n4 + n5 + n6 + n7 + n8 + n9 + n10 + n11 + n12 + n13 + n14 + n15)
  unfolding gather
  gather_lem = rw (twos_lem, fours_lem, eights_lem) total_lem
