-- ===== src/Lib.antt =====
-- A model of the C++ core of ProtoCache, a flat binary format for protobuf schemas: the data is a
-- sequence of 32-bit words that is read in place, and the library has readers that look at the
-- words, a buffer that a serializer fills from the back, and a compression of runs of 0x00 and 0xff
-- for the bytes on the wire.
--
-- Files:
--   Base            helpers: lists, bits of numbers, outcomes of a run, cursors into an array.
--                   Base/Outcome has the result of code that reads memory: it is done, or it
--                   faulted on a read or a store outside its allocation, or a loop is stuck because
--                   it ran out of fuel. Base/Pointer has the cursor that a pointer into a byte
--                   array is: its contents and its place.
--   Compress        src/utils.cc, Compress and Decompress. pick, copy and unpack are the lambdas of
--                   these names; pick_fill, pick_plain, unpack_fill and unpack_plain are their loops.
--                   Compress/Format says what a packed form of bytes is, and the other files are
--                   about compress as its writer and decompress as its reader.
--   Buffer          include/protocache/utils.h, the class Buffer, with DoExpand and DoReserve of
--                   src/utils.cc. The words that `new` returns are a parameter, an Allocator.
--                   Buffer/Refine is the refinement of a stack of words.
--   Access          include/protocache/access.h: Words (Slice and the reads), Strings (String),
--                   Fields (Field), Count (Count32, Count64 in the portable version), Messages
--                   (Message), Arrays (Array), Maps (Pair and Map) and Typed (Get and Detect of
--                   ScalarField, StringField, FieldT, ArrayT and MapT). Access/Bounds, Access/Reach
--                   and the Bounds below Maps and Typed are about readers that are given the end of
--                   the data, and Maps/Lookup is about Find with an index that Build has made.
--   PerfectHash     src/perfect_hash.cc. PerfectHash/Division is the class Divisor, and
--                   PerfectHash/Bits has the bits and two-bit values of a bitmap and the sizes.
--                   PerfectHash/Graph is CreateGraph and TearGraph, PerfectHash/Mapping is Mapping,
--                   and PerfectHash/Index the class PerfectHash, which reads an index in place and
--                   which Map searches by. PerfectHash/Check is Check, and PerfectHash/Build is
--                   Build, with the seed and the contents of new memory as parameters. The table
--                   of Check is an array of its own or lies in the memory of the arrays of Build
--                   (check_space); what it then leaves in the edges is after_check. Check/Probing is
--                   about one search of the table, Check/Table about the table with the first keys
--                   in it, and Check/Distinct about the answer. The
--                   files below Graph are about the linked lists at the slots: Nearest, Linked and
--                   Views describe them, Created and Create build them up, and Waiting, Unlinked, Detached,
--                   Rounds and Torn take them apart. Mapping/Distinct states as Peels the order that
--                   Mapping needs, and Mapping/Peeled that of TearGraph. The files below Build follow
--                   a try, the search and the image, whose table Build/Table is about; Index/Stored
--                   is an image in memory, Index/Places and Index/Minimal what Locate reads, and
--                   Index/Objects is about PerfectHashObject.
--   Serialize       src/serialize.cc and include/protocache/serialize.h: the class Unit, Segment,
--                   FoldField, and below it Strings (Serialize of a string), Arrays (SerializeArray),
--                   Maps (SerializeMap) and Messages (SerializeMessage). They write to a Buffer the
--                   words that Access reads. A unit holds its words, or the place of a segment.
--                   A `return false` is the answer false, with the buffer as it is then.
--   Hash            src/hash.cc: Hash128, and in Hash/Random the generator XorShift. Hash/Tail is the
--                   switch of Hash128 on the last bytes, and Hash/Digest a description of the whole
--                   function that has no memory. The perfect hash takes its slots from the result.
--
-- Numbers are natural numbers; an operation of the source on uint32_t or uint64_t that can leave its
-- range is written with its `% 2 ^ w`. An address is counted in words, and a pointer is an address
-- or null; addresses do not wrap.
--
-- Fuel: the loop that writes a size has 10 rounds, enough for 64 bits of 7 a round. The loops of
-- Compress and Decompress have one round for each byte of the source, and each round takes a byte.
-- The loop of String has 5 rounds, since the shift goes from 7 to 35 in steps of 7. The loops of the
-- typed Detect functions have one round for each element or pair, and the second loop of TearGraph
-- has one for each edge, as each edge enters the queue once. WriteVarInt has 5
-- rounds for 32 bits of 7 a round, and SerializeMessage one for each section that it counts. The
-- insertion of Check has one round for each key, as the source has. The theorems say that the code is
-- done, so the fuel is enough where a theorem is about the loop.
--
-- Not modelled: GetSeed of src/perfect_hash.cc, which reads a clock (the seed is a parameter), the
-- typed objects of include/protocache/access-ex.h, and the conversion from and to protobuf messages
-- (src/extension). Bindings, code generators and tests are not part of the core.
mod Base
pub mod Compress
pub mod Buffer
pub mod Access
pub mod PerfectHash
pub mod Hash
pub mod Serialize
