-- ===== src/ControlStream.antt =====
-- tmux/control_codec.go: `controlStreamReader`, which removes the carriage returns of a terminal
-- and tmux's device control string from what a control client writes. The reader below it returns
-- at least one byte from a read, until the end of the file: it is the list of the pieces it still
-- has, each a first byte and the others.
mod Copied
mod InPlace
mod Normal
mod Reads
mod Tests
use gotmux.Prelude.{
  ℕ, zero, suc, ◌+◌, ◌-◌, Bool, true, false, not, ◌&&◌, Option, none, some, List, [], ◌∷◌, ◌++◌,
  Bytes, codes, length, take, drop, cut_prefix, ltb, ◌==◌, if◌then◌else◌,
}

pub record ControlStreamReader : Type 0 where
  has_cr : Bool
  seen_dsc : Bool
  pending : Bytes

-- A transform at work: the caller's slice, how much of it is written, and the reader's fields. The
-- bytes that are still to be read stand in the same slice.
pub record Transform : Type 0 where
  buffer : Bytes
  dst : ℕ
  cr : Bool
  held : Bytes

abbrev pub Source : Type 0
Source = List (ℕ × Bytes)

-- "\x1bP1000p"
abbrev pub dsc_preamble : Bytes
dsc_preamble = 27 ∷ codes "P1000p"

-- `p[i]`
unfoldable pub byte_at : ℕ → Bytes → ℕ
byte_at i [] = 0
byte_at zero (b ∷ p) = b
byte_at (suc i) (b ∷ p) = byte_at i p

-- `p[i] = b`
unfoldable pub set_byte : ℕ → ℕ → Bytes → Bytes
set_byte i b [] = []
set_byte zero b (c ∷ p) = b ∷ p
set_byte (suc i) b (c ∷ p) = c ∷ set_byte i b p

unfoldable pub emit : ℕ → Transform → Transform
emit b t =
    if ltb t.dst (length t.buffer)
    then record { buffer = set_byte t.dst b t.buffer; dst = t.dst + 1; cr = t.cr; held = t.held }
    else record { buffer = t.buffer; dst = t.dst; cr = t.cr; held = t.held ++ b ∷ [] }

unfoldable pub set_cr : Bool → Transform → Transform
set_cr b t = record { buffer = t.buffer; dst = t.dst; cr = b; held = t.held }

-- The first test of the loop's body: a carriage return that is not before a line feed is written.
unfoldable pub flush_cr : ℕ → Transform → Transform
flush_cr b t = if t.cr then if b == 10 then set_cr false t else emit 13 (set_cr false t) else t

-- The body of the loop of `transform`.
unfoldable pub transform_byte : ℕ → Transform → Transform
transform_byte b t = if b == 13 then set_cr true (flush_cr b t) else emit b (flush_cr b t)

-- The loop over the `left` bytes from `at` on, each read when its turn comes.
unfoldable pub transform_loop : ℕ → ℕ → Transform → Transform
transform_loop zero at t = t
transform_loop (suc left) at t =
    transform_loop left (suc at) (transform_byte (byte_at at t.buffer) t)

-- What a round of `Read` leaves: the bytes it has written, the caller's slice, and the reader.
pub record Round : Type 0 where
  written : Bytes
  buffer : Bytes
  reader : ControlStreamReader

-- `transform` of the `left` bytes of the slice from `at` on.
unfoldable pub transform : Bytes → ℕ → ℕ → ControlStreamReader → Round
transform p at left c =
    let t =
      transform_loop left at (record { buffer = p; dst = 0; cr = c.has_cr; held = c.pending }) in
    record {
      written = take t.dst t.buffer;
      buffer = t.buffer;
      reader = record { has_cr = t.cr; seen_dsc = c.seen_dsc; pending = t.held };
    }

unfoldable pub filter_dsc : Bytes → ControlStreamReader → Bytes × ControlStreamReader
filter_dsc src c = if c.seen_dsc then (src, c) else elim (cut_prefix dsc_preamble src) [
  | some rest ↦ (rest, record { has_cr = c.has_cr; seen_dsc = true; pending = c.pending })
  | none ↦ (src, record { has_cr = c.has_cr; seen_dsc = true; pending = c.pending })
]

-- What is left of a piece.
unfoldable pub put_back : Bytes → Source → Source
put_back [] s = s
put_back (b ∷ rest) s = (b, rest) ∷ s

-- A read of the reader below into a slice of `size` bytes.
unfoldable pub source_read : ℕ → Source → Bytes × Source
source_read zero s = ([], s)
source_read (suc n) [] = ([], [])
source_read (suc n) (p ∷ s) = (p.0 ∷ take n p.1, put_back (drop n p.1) s)

-- What a call of `Read` returns, with the reader and the pieces that it leaves.
pub record Reading : Type 0 where
  output : Bytes
  ended : Bool
  reader : ControlStreamReader
  source : Source

-- Where `readSlice` begins: one byte is kept for a carriage return that is still to be written.
unfoldable pub reserved : Bytes → Bool → ℕ
reserved p cr = if cr && ltb 1 (length p) then 1 else 0

-- The slice once the reader below has written `got` to it from `at` on.
unfoldable pub place : ℕ → Bytes → Bytes → Bytes
place at got p = take at p ++ (got ++ drop (at + length got) p)

-- The end of the file: a carriage return that is still held is written first.
unfoldable pub read_end : ControlStreamReader → Reading
read_end c =
    if c.has_cr
    then record {
      output = 13 ∷ [];
      ended = true;
      source = [];
      reader = record { has_cr = false; seen_dsc = c.seen_dsc; pending = c.pending };
    }
    else record { output = []; ended = true; source = []; reader = c }

-- The slices of a round share their bytes: `src` is what `filterDSC` leaves of those that were read.
unfoldable pub process : Bytes → ℕ → Bytes → ControlStreamReader → Round
process p at got c =
    let src = filter_dsc got c in
    transform (place at got p) (at + (length got - length src.0)) (length src.0) src.1

abbrev pub reading : Bytes → ControlStreamReader → Source → Reading
reading out c s = record { output = out; ended = false; reader = c; source = s }

-- What a round returns, by what it has read and written.
abbrev pub after_round :
    Bytes → Bytes → Option Reading → Option Reading → (Bytes → Option Reading) → Option Reading
after_round [] out end again returned = end
after_round (c ∷ got) [] end again returned = again
after_round (c ∷ got) (b ∷ out) end again returned = returned (b ∷ out)

-- The loop of `Read` on a slice that is not empty.
unfoldable pub read_loop : ℕ → Bytes → ControlStreamReader → Source → Option Reading
read_loop zero p c s = none
read_loop (suc fuel) p c s =
    let at = reserved p c.has_cr in
    let got = source_read (length p - at) s in
    let next = process p at got.0 c in
    let rest = read_loop fuel next.buffer next.reader got.1 in
    elim c.pending [
      | [] ↦
          after_round got.0 next.written (some (read_end c)) rest
            (λ out. some (reading out next.reader got.1))
      | ◌∷◌ b more ↦ some (
          reading (take (length p) (b ∷ more))
            (record {
              has_cr = c.has_cr;
              seen_dsc = c.seen_dsc;
              pending = drop (length p) (b ∷ more);
            })
            s)
    ]

-- The bytes that the reader below still has.
unfoldable pub flat : Source → Bytes
flat [] = []
flat (p ∷ s) = p.0 ∷ p.1 ++ flat s

unfoldable pub read : Bytes → ControlStreamReader → Source → Option Reading
read [] c s = some (reading [] c s)
read (b ∷ p) c s = read_loop (suc (length (flat s))) (b ∷ p) c s
