-- ===== src/Expiration/DeadLetter/Copying.antt =====
-- Copying the headers of a message, `cloneHeaders` and `withoutDeadLetterHeaders`.
use mathlib.Core.List.{append-nil, append_assoc, map-append}
use polyglot_ticketing_v.Base.{
  ℕ, String, ◌≡◌, refl, sym, ◌∙◌, ap, true, false, Option, none, some, List, [], ◌∷◌, ◌++◌, map,
  str_eq, eq_iff, if◌then◌else◌, Bool-cases, inl, inr,
}
use polyglot_ticketing_v.Base.Text.{trim}
use polyglot_ticketing_v.Base.Text.Cutting.{starts_with-append}
use polyglot_ticketing_v.Platform.MsgHeaders.{MsgHeadersApi, Entries, values_of}
use polyglot_ticketing_v.Expiration.DeadLetter.{
  dead_letter_header, header_key, is_left_out, append_values, clone_entries, entries_of,
  clone_headers, copy_kept, without_dead_letter_headers, set_all,
}

-- Every key that parking sets is left out by a replay.
pub header_key-is_left_out : (name : String) → is_left_out (header_key name) ≡ true
unfolding is_left_out
header_key-is_left_out name = rw (starts_with-append dead_letter_header name)

true-ne-false : true ≡ false → ⊥
true-ne-false e = cc

-- A key that is kept is none of those that parking sets.
pub kept-ne-header_key :
    (name k : String) → is_left_out k ≡ false → str_eq (header_key name) k ≡ false
kept-ne-header_key name k kept = elim (Bool-cases (str_eq (header_key name) k)) [
  | inl same ↦
      let e : header_key name ≡ k = (eq_iff (header_key name) k).0 same in
      absurd (true-ne-false (sym (header_key-is_left_out name) ∙ ap is_left_out e ∙ kept))
  | inr other ↦ other
]

-- Equal keys are left out alike.
is_left_out-same : (j k : String) → str_eq j k ≡ true → is_left_out j ≡ is_left_out k
is_left_out-same j k same = ap is_left_out ((eq_iff j k).0 same)

module _ (api : MsgHeadersApi) (decimal : ℕ → String) (k : String) where
  open api use {
    MsgHdrs, empty, append as append_value, set, entries, entries-empty, entries-append,
    entries-set, entries_trimmed,
  }

  abbrev held : MsgHdrs → List String
  held h = values_of k (entries h)

  append_values_lem :
      (h : MsgHdrs) (j : String) (vs : List String)
      → held (append_values api decimal h j vs)
        ≡ (if str_eq j k then held h ++ map trim vs else held h)
  append_values_lem h j [] = elim (Bool-cases (str_eq j k)) [
    | inl same ↦ rw (same, if◌then◌else◌) (sym (append-nil (held h)))
    | inr other ↦ rw (other, if◌then◌else◌)
  ]
  append_values_lem h j (v ∷ vs) =
      append_values_lem (append_value h j v) j vs ∙ elim (Bool-cases (str_eq j k)) [
        | inl same ↦ rw (entries-append h j v k, same, if◌then◌else◌, append_assoc)
        | inr other ↦ rw (entries-append h j v k, other, if◌then◌else◌)
      ]

  clone_entries_lem :
      (h : MsgHdrs) (es : Entries)
      → held (clone_entries api decimal h es) ≡ held h ++ map trim (values_of k es)
  unfolding clone_entries
  clone_entries_lem h [] = sym (append-nil (held h))
  clone_entries_lem h ((j, vs) ∷ es) =
      clone_entries_lem (append_values api decimal h j vs) es ∙ elim (Bool-cases (str_eq j k)) [
        | inl same ↦ rw (append_values_lem h j vs, same, if◌then◌else◌, map-append, append_assoc)
        | inr other ↦ rw (append_values_lem h j vs, other, if◌then◌else◌)
      ]

  entries_of_trimmed :
      (original : Option MsgHdrs)
      → map trim (values_of k (entries_of api decimal original))
        ≡ values_of k (entries_of api decimal original)
  entries_of_trimmed none = refl
  entries_of_trimmed (some h) = entries_trimmed h k

  -- A clone holds the values of its original.
  pub clone_headers_lem :
      (original : Option MsgHdrs)
      → held (clone_headers api decimal original) ≡ values_of k (entries_of api decimal original)
  unfolding clone_headers
  clone_headers_lem original =
      clone_entries_lem empty (entries_of api decimal original)
      ∙ rw (entries-empty k) (entries_of_trimmed original)

  copy_kept-nil : (h : MsgHdrs) → held (copy_kept api decimal h []) ≡ held h
  unfolding copy_kept
  copy_kept-nil h = refl

  copy_kept-cons :
      (h : MsgHdrs) (j : String) (vs : List String) (es : Entries)
      → copy_kept api decimal h ((j, vs) ∷ es)
        ≡ copy_kept api decimal (if is_left_out j then h else append_values api decimal h j vs) es
  unfolding copy_kept
  copy_kept-cons h j vs es = refl

  copy_kept_lem :
      (h : MsgHdrs) (es : Entries)
      → held (copy_kept api decimal h es)
        ≡ (if is_left_out k then held h else held h ++ map trim (values_of k es))
  copy_kept_lem h [] = elim (Bool-cases (is_left_out k)) [
    | inl left ↦ rw (left, if◌then◌else◌) (copy_kept-nil h)
    | inr kept ↦ rw (kept, if◌then◌else◌) (copy_kept-nil h ∙ sym (append-nil (held h)))
  ]
  copy_kept_lem h ((j, vs) ∷ es) =
      ap held (copy_kept-cons h j vs es)
      ∙ copy_kept_lem (if is_left_out j then h else append_values api decimal h j vs) es
      ∙ elim (Bool-cases (str_eq j k)) [
        | inl same ↦ elim (Bool-cases (is_left_out k)) [
          | inl left ↦ rw (is_left_out-same j k same, left, if◌then◌else◌)
          | inr kept ↦ rw (
            is_left_out-same j k same,
            kept,
            if◌then◌else◌,
            append_values_lem h j vs,
            same,
            map-append,
            append_assoc,
          )
        ]
        | inr other ↦ elim (Bool-cases (is_left_out j)) [
          | inl left ↦ rw (left, other, if◌then◌else◌)
          | inr kept ↦ rw (kept, if◌then◌else◌, append_values_lem h j vs, other)
        ]
      ]

  -- A copy without the dead letter headers holds the values of its original, but none under a key
  -- that is left out.
  pub without_dead_letter_headers_lem :
      (h : MsgHdrs)
      → held (without_dead_letter_headers api decimal h) ≡ (if is_left_out k then [] else held h)
  unfolding without_dead_letter_headers
  without_dead_letter_headers_lem h =
      copy_kept_lem empty (entries h) ∙ rw (entries-empty k, entries_trimmed h k)

  -- Setting dead letter headers changes no key that is kept.
  pub set_all-kept :
      (h : MsgHdrs) (fields : List (String × String))
      → is_left_out k ≡ false
      → held (set_all api decimal h fields) ≡ held h
  set_all-kept h [] kept = refl
  set_all-kept h ((name, value) ∷ rest) kept =
      set_all-kept (set h (header_key name) value) rest kept
      ∙ rw (entries-set h (header_key name) value k, kept-ne-header_key name k kept, if◌then◌else◌)
