-- ===== src/Json/Laws.antt =====
-- Where `consume_recursive_json` stops, and what `json_str_equal` decides.
use uptiny.Base.{
  ℕ, zero, suc, ◌+◌, ◌-◌, ◌≤◌, ◌<◌, ◌≡◌, ◌⊎◌, inl, inr, refl, ◌↔◌, Bool, true, ◌&&◌, ◌||◌, ◌==◌,
  arith, List, [], ◌∷◌, length, get_or, ℤ, pos, ltb_ℤ, eqb_ℤ→eq, ltb_ℤ_false, ◌<ℤ◌, ◌≤ℤ◌, Memory,
  Buffer, advance, Bool-cases,
}
use uptiny.Json.{Token, Input, is_object, is_array, tok_len, tok_text, starts_with}
use uptiny.Json.{json_str_equal, skip_inside, consume_recursive_json}

-- `last` is where a scan from `i` over tokens that start before `end` stops: it does not pass the
-- limit, and stops before it only at a token that does not start before `end`.
pub record Skipped (pool : Memory Token) (limit : ℕ) (end : ℤ) (i last : ℕ) : Type 0 where
  pub forward : i ≤ last
  pub inside : (j : ℕ) → i ≤ j → j < last → (pool j).start <ℤ end
  pub within : i ≤ limit → last ≤ limit
  pub beyond : limit ≤ i → last ≡ i
  pub stops : (limit ≤ last) ⊎ (end ≤ℤ (pool last).start)

skip_inside-Skipped :
    (n i limit : ℕ) (end : ℤ) (pool : Memory Token)
    → (limit - i) ≡ n
    → Skipped pool limit end i (skip_inside n i end pool)
unfolding skip_inside
skip_inside-Skipped zero i limit end pool h = record {
  forward = omega arith;
  inside = λ j lo hi. absurd (omega arith);
  within = λ le. le;
  beyond = λ le. refl;
  stops = inl (omega arith);
}
skip_inside-Skipped (suc n) i limit end pool h = elim (Bool-cases (ltb_ℤ (pool i).start end)) [
  | inl before ↦
      let rest = skip_inside-Skipped n (i + 1) limit end pool (omega arith) in
      rw (before, skip_inside)
        (record {
          forward = omega (arith, rest.forward);
          inside = λ j lo hi. elim (Bool-cases (j == i)) [
            | inl same ↦ let e : j ≡ i = ground arith in rw e (ground arith)
            | inr other ↦ rest.inside j (ground arith) hi
          ];
          within = λ le. rest.within (omega arith);
          beyond = λ le. absurd (omega arith);
          stops = rest.stops;
        })
  | inr after ↦
      rw (after, skip_inside)
        (record {
          forward = omega arith;
          inside = λ j lo hi. absurd (omega arith);
          within = λ le. le;
          beyond = λ le. refl;
          stops = inr (ltb_ℤ_false ((pool i).start) end after);
        })
]

-- `consume_recursive_json` of an object or array stops at the first later token that does not start
-- before the end of it, or at the end of the pool and never past it; every token it passed starts
-- before that end. Where no later token is in the pool, it passes none.
pub consume_recursive_json-Skipped :
    (input : Input) (idx : ℕ)
    → (is_object (input.pool idx).type || is_array (input.pool idx).type) ≡ true
    → Skipped input.pool input.pool_size
        (input.pool idx).end
        (idx + 1)
        (consume_recursive_json input idx)
unfolding consume_recursive_json
consume_recursive_json-Skipped input idx h =
    let tok = input.pool idx in
    rw (h, consume_recursive_json)
      (skip_inside-Skipped (input.pool_size - (idx + 1)) (idx + 1) input.pool_size tok.end
        input.pool refl)

pub consume_recursive_json_forward :
    (input : Input) (idx : ℕ) → idx < consume_recursive_json input idx
unfolding consume_recursive_json
consume_recursive_json_forward input idx =
    elim (Bool-cases (is_object (input.pool idx).type || is_array (input.pool idx).type)) [
      | inl nested ↦ omega (arith, (consume_recursive_json-Skipped input idx nested).forward)
      | inr flat ↦ rw (flat, consume_recursive_json) (omega arith)
    ]

and_split : (a b : Bool) → (a && b) ≡ true → (a ≡ true) × (b ≡ true)
and_split a b h = ground arith

starts_with-cells :
    (value : List ℕ) (s : Buffer)
    → starts_with value s ≡ true
    → (j : ℕ) → j < length value
    → s j ≡ get_or value j 0
unfolding starts_with
starts_with-cells [] s h j lt = absurd (omega arith)
starts_with-cells (c ∷ value) s h zero lt = ground arith
starts_with-cells (c ∷ value) s h (suc j) lt =
    let e : 1 + j ≡ suc j = omega arith in
    rw e at (starts_with-cells value (advance s 1) (ground arith) j (omega arith))

cells-starts_with :
    (value : List ℕ) (s : Buffer)
    → ((j : ℕ) → j < length value → s j ≡ get_or value j 0)
    → starts_with value s ≡ true
unfolding starts_with
cells-starts_with [] s h = refl
cells-starts_with (c ∷ value) s h =
    let rest =
      cells-starts_with value (advance s 1)
        (λ j lt. let e : 1 + j ≡ suc j = omega arith in rw e (h (suc j) (omega arith))) in
    ground (arith, rest, h 0 (omega arith))

-- `json_str_equal` holds exactly where the token has the length of the literal and its characters.
pub json_str_equal_iff :
    (input : Input) (idx : ℕ) (value : List ℕ)
    → (json_str_equal input idx value ≡ true) ↔ (
        (tok_len (input.pool idx) ≡ pos (length value))
        × ((j : ℕ) → j < length value → tok_text input idx j ≡ get_or value j 0))
unfolding json_str_equal
json_str_equal_iff input idx value = (
  λ h.
      let (len, text) = and_split _ _ h in
      (eqb_ℤ→eq _ _ len, starts_with-cells value (tok_text input idx) text),
  λ h. rw (h.0, cells-starts_with value (tok_text input idx) h.1) (ground arith),
)
