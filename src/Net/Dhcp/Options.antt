-- ===== src/Net/Dhcp/Options.antt =====
-- The search for an option in a message, `find_option` of crates/zenus-net/src/dhcp_server.rs.
use mathlib.Core.List.{append_assoc}
use zenus.Base.{
  ℕ, zero, suc, ◌+◌, ◌≡◌, ◌≢◌, ◌≤◌, ◌<◌, ◌==◌, if◌then◌else◌, Option, none, some, List, [], ◌∷◌,
  ◌++◌, length, get_or, take, drop, arith, refl, sym, ◌∙◌, ap, inl, inr, Bool-cases, length-append,
  get_or-append_right, drop-append_right, take-append_left, All,
}
use zenus.Net.Dhcp.{find_option, opt_end, opt_pad}

-- The options as a client writes them: the type, the length, the bytes.
pub encode_options : List (ℕ × List ℕ) → List ℕ
encode_options [] = []
encode_options ((t, val) ∷ opts) = t ∷ (length val ∷ (val ++ encode_options opts))

pub lookup_option : List (ℕ × List ℕ) → ℕ → Option (List ℕ)
lookup_option [] opt_type = none
lookup_option ((t, val) ∷ opts) opt_type =
    let rest = lookup_option opts opt_type in if t == opt_type then some val else rest

-- A type that is neither padding nor the end.
abbrev pub IsOption : ℕ × List ℕ → Type 0
IsOption o = (o.0 ≢ opt_pad) × (o.0 ≢ opt_end)

-- A round at an option.
option_round :
    (fuel : ℕ) (payload : List ℕ) (off opt_type t n : ℕ)
    → get_or payload off 0 ≡ t
    → get_or payload (off + 1) 0 ≡ n
    → IsOption (t, [])
    → off + 2 + n ≤ length payload
    → find_option (suc fuel) payload off opt_type ≡ (
        if t == opt_type
        then some (some (take n (drop (off + 2) payload)))
        else find_option fuel payload (off + 2 + n) opt_type)
unfolding find_option
option_round fuel payload off opt_type t n is_t is_n (pad, end) l =
    rw (find_option, is_t, is_n) (ground (arith, pad, end, l))

find_option-at :
    (fuel : ℕ) (pre : List ℕ) (opts : List (ℕ × List ℕ)) (post : List ℕ) (opt_type off : ℕ)
    → All IsOption opts
    → length opts < fuel
    → off ≡ length pre
    → find_option fuel (pre ++ (encode_options opts ++ (opt_end ∷ post))) off opt_type
      ≡ some (lookup_option opts opt_type)
unfolding find_option encode_options lookup_option
find_option-at zero pre opts post opt_type off v h e = absurd (omega (arith, h))
find_option-at (suc fuel) pre [] post opt_type off v h e =
    let payload = pre ++ (opt_end ∷ post) in
    let t : get_or payload off 0 ≡ opt_end =
      get_or-append_right pre (opt_end ∷ post) off 0 0 (omega (arith, e)) in
    rw (find_option, t) (ground arith)
find_option-at (suc fuel) pre ((t, val) ∷ opts) post opt_type off ((pad, end), v) h e =
    let rest : List ℕ = encode_options opts ++ (opt_end ∷ post) in
    let n = length val in
    let tail : List ℕ = t ∷ (n ∷ (val ++ rest)) in
    let payload = pre ++ tail in
    let joined : List ℕ = pre ++ (t ∷ (n ∷ val)) in
    let whole : joined ++ rest ≡ payload = append_assoc pre (t ∷ (n ∷ val)) rest in
    let first =
      option_round fuel payload off opt_type t n
        (get_or-append_right pre tail off 0 0 (omega (arith, e)))
        (get_or-append_right pre tail (off + 1) 1 0 (omega (arith, e))) (pad, end)
        (omega (arith, e, length-append pre tail, length-append val rest)) in
    let value : take n (drop (off + 2) payload) ≡ val =
      ap (take n) (drop-append_right pre tail (off + 2) 2 (omega (arith, e)))
      ∙ take-append_left val rest in
    let later : find_option fuel payload (off + 2 + n) opt_type
        ≡ some (lookup_option opts opt_type) =
      ap (λ l. find_option fuel l (off + 2 + n) opt_type) (sym whole)
      ∙ find_option-at fuel joined opts post opt_type (off + 2 + n) v (omega (arith, h))
          (omega (arith, e, length-append pre (t ∷ (n ∷ val)))) in
    rw (encode_options, append_assoc val (encode_options opts) (opt_end ∷ post), first)
      (elim (Bool-cases (t == opt_type)) [
        | inl q ↦ rw (q, value) refl
        | inr q ↦ rw (q, later) refl
      ])

-- In a message of 240 bytes and then options, each with its length and its bytes, an end byte and anything
-- behind it, `find_option` ends and returns the bytes of the first option of the type, or nothing if
-- there is none; one round for each option and one more are enough.
pub find_option-encode_options :
    (fuel : ℕ) (pre : List ℕ) (opts : List (ℕ × List ℕ)) (post : List ℕ) (opt_type : ℕ)
    → All IsOption opts
    → length opts < fuel
    → length pre ≡ 240
    → find_option fuel (pre ++ (encode_options opts ++ (opt_end ∷ post))) 240 opt_type
      ≡ some (lookup_option opts opt_type)
find_option-encode_options fuel pre opts post opt_type v h e =
    find_option-at fuel pre opts post opt_type 240 v h (sym e)

-- The search ends on every message and at every offset: a round for each byte from the offset on, and one
-- more, are enough.
pub find_option_ends :
    (fuel : ℕ) (payload : List ℕ) (off opt_type : ℕ)
    → length payload ≤ off + fuel
    → find_option (suc fuel) payload off opt_type ≢ none
unfolding find_option
find_option_ends zero payload off opt_type h = ground (arith, h)
find_option_ends (suc fuel) payload off opt_type h =
    let len = get_or payload (off + 1) 0 in
    let next = find_option_ends fuel payload (off + 1) opt_type (omega (arith, h)) in
    let rest = find_option_ends fuel payload (off + 2 + len) opt_type (omega (arith, h)) in
    ground (arith, h, next, rest)
