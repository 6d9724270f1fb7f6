-- ===== src/Fs/Journal/Codec.antt =====
-- The header sector of the journal: u32 fields in the byte order of the machine, little-endian, in
-- `read_header` and `write_header` of crates/zenus-fs/src/journal.rs.
use zenus.Base.{
  ℕ, zero, suc, ◌+◌, ◌*◌, ◌/◌, ◌%◌, ◌^◌, ◌≡◌, ◌<◌, ◌≤◌, List, [], ◌∷◌, All, length, get_or, take,
  drop, replicate, arith, refl, ap, ◌∙◌, subst, length-replicate,
}

abbrev pub u32_mod : ℕ
u32_mod = 2 ^ 32

abbrev pub max_entries : ℕ
max_entries = 123

abbrev pub journal_magic : ℕ
journal_magic = 0x4A524E4C

-- `to_ne_bytes`, and the bytes that follow.
abbrev pub put_word : ℕ → List ℕ → List ℕ
put_word w rest = (w % 256) ∷ (w / 256 % 256) ∷ (w / 65536 % 256) ∷ (w / 16777216 % 256) ∷ rest

-- Fields written one after the other from the front of the buffer, as long as they fit.
unfoldable pub put_words : List ℕ → List ℕ → List ℕ
put_words [] buf = buf
put_words (w ∷ ws) (a ∷ b ∷ c ∷ d ∷ rest) = put_word w (put_words ws rest)
put_words (w ∷ ws) buf = buf

-- `from_ne_bytes` of the `n` first fields; a field past the end of the buffer is 0.
unfoldable pub get_words : ℕ → List ℕ → List ℕ
get_words zero buf = []
get_words (suc n) (a ∷ b ∷ c ∷ d ∷ rest) =
    (a + 256 * b + 65536 * c + 16777216 * d) ∷ get_words n rest
get_words (suc n) buf = 0 ∷ get_words n []

pub record JournalHeader : Type 0 where
  pub magic : ℕ
  pub sequence : ℕ
  pub num_entries : ℕ
  pub state : ℕ
  pub reserved : ℕ
  pub targets : List ℕ

abbrev pub fields : JournalHeader → List ℕ
fields h = h.magic ∷ h.sequence ∷ h.num_entries ∷ h.state ∷ h.reserved ∷ take max_entries h.targets

-- `[0u8; 512]`
abbrev pub blank : List ℕ
blank = replicate 512 0

unfoldable pub encode_header : JournalHeader → List ℕ
unfolding put_words
encode_header h = put_words (fields h) blank

abbrev of_fields : List ℕ → JournalHeader
of_fields ws = record {
  magic = get_or ws 0 0;
  sequence = get_or ws 1 0;
  num_entries = get_or ws 2 0;
  state = get_or ws 3 0;
  reserved = get_or ws 4 0;
  targets = drop 5 ws;
}

unfoldable pub decode_header : List ℕ → JournalHeader
unfolding get_words
decode_header buf = of_fields (get_words 128 buf)

-- Every field is a u32, and the array has its length.
pub record IsHeader (h : JournalHeader) : Type 0 where
  pub words : All (λ w. w < u32_mod) (fields h)
  pub slots : length h.targets ≡ max_entries

get-put_words :
    (ws buf : List ℕ)
    → All (λ w. w < u32_mod) ws
    → 4 * length ws ≤ length buf
    → get_words (length ws) (put_words ws buf) ≡ ws
unfolding get_words put_words
get-put_words [] buf a l = refl
get-put_words (w ∷ ws) [] a l = absurd (omega arith)
get-put_words (w ∷ ws) (x ∷ []) a l = absurd (omega arith)
get-put_words (w ∷ ws) (x ∷ y ∷ []) a l = absurd (omega arith)
get-put_words (w ∷ ws) (x ∷ y ∷ z ∷ []) a l = absurd (omega arith)
get-put_words (w ∷ ws) (x ∷ y ∷ z ∷ u ∷ rest) a l =
    let v : w % 256
          + 256 * (w / 256 % 256)
          + 65536 * (w / 65536 % 256)
          + 16777216 * (w / 16777216 % 256)
        ≡ w =
      omega (arith, a.0) in
    rw v (ap (λ t. w ∷ t) (get-put_words ws rest a.1 (omega arith)))

take_all : (n : ℕ) (xs : List ℕ) → length xs ≡ n → take n xs ≡ xs
take_all zero [] h = refl
take_all (suc n) [] h = absurd (omega arith)
take_all zero (x ∷ xs) h = absurd (omega arith)
take_all (suc n) (x ∷ xs) h = ap (λ l. x ∷ l) (take_all n xs (omega arith))

-- A header that `write_header` wrote is what `read_header` reads.
pub decode-encode_header : (h : JournalHeader) → IsHeader h → decode_header (encode_header h) ≡ h
unfolding decode_header encode_header
decode-encode_header h v =
    let all = take_all max_entries h.targets v.slots in
    let n : length (fields h) ≡ 128 = omega (arith, ap length all, v.slots) in
    let room : 4 * length (fields h) ≤ length blank =
      omega (arith, n, length-replicate {A = ℕ} 512 0) in
    let e = get-put_words (fields h) blank v.words room in
    ap of_fields (subst (λ k. get_words k (encode_header h) ≡ fields h) n e)
    ∙ ap (λ ts. record h { targets = ts }) all
