-- ===== src/Config/Split.antt =====
-- internal/config/config.go, `split`: the loop against a filter.
use taxi_app.Base.{
  ℕ, suc, ◌+◌, String, str_eq, List, [], ◌∷◌, ◌++◌, append-nil, append_assoc, some, if◌then◌else◌,
  length, take, get_elem?, set, get_elem?-append, set-append, take-append, length-append, ◌≡◌, refl,
  sym, ◌∙◌, ap, inl, inr, Bool-cases, arith,
}
use taxi_app.Config.{trim_space, split_comma, compact, split}

-- The parts that are not blank, trimmed.
unfoldable pub kept : List String → List String
kept [] = []
kept (p ∷ ps) = let rest = kept ps in if str_eq (trim_space p) "" then rest else trim_space p ∷ rest

read_at :
    (done junk rest : List String) (p : String)
    → get_elem? (done ++ (junk ++ (p ∷ rest))) (length done + length junk) ≡ some p
read_at done junk rest p =
    rw (← append_assoc done junk (p ∷ rest))
      (rw (← length-append done junk) (get_elem?-append (done ++ junk) rest p))

-- A write behind the kept parts takes the place of one that was read.
overwrite :
    (done junk rest : List String) (p v : String)
    → (junk' : List String) × (length junk' ≡ length junk)
      × (set (done ++ (junk ++ (p ∷ rest))) (length done) v ≡ (done ++ (v ∷ [])) ++ (junk' ++ rest))
overwrite done [] rest p v =
    ([], refl, set-append done rest p v ∙ sym (append_assoc done (v ∷ []) rest))
overwrite done (j ∷ js) rest p v = (
  js ++ (p ∷ []),
  omega (arith, length-append js (p ∷ [])),
  set-append done (js ++ (p ∷ rest)) j v
      ∙ sym (
          append_assoc done (v ∷ []) ((js ++ (p ∷ [])) ++ rest)
          ∙ ap (λ l. done ++ (v ∷ l)) (append_assoc js (p ∷ []) rest)),
)

compact-kept :
    (done junk rest : List String) (i w : ℕ) (b : List String)
    → i ≡ length done + length junk
    → w ≡ length done
    → b ≡ done ++ (junk ++ rest)
    → take (compact (length rest) i w b).1 (compact (length rest) i w b).0 ≡ done ++ kept rest
unfolding compact kept
compact-kept done junk [] i w b hi hw hb =
    rw (hw, hb) (take-append done (junk ++ [])) ∙ sym (append-nil done)
compact-kept done junk (p ∷ rest) i w b hi hw hb =
    let read : get_elem? b i ≡ some p = rw (hi, hb) (read_at done junk rest p) in
    elim (Bool-cases (str_eq (trim_space p) "")) [
      | inl blank ↦
          rw (read, compact)
            (rw (blank, compact)
              (compact-kept done (junk ++ (p ∷ [])) rest (suc i) w b
                (omega (arith, length-append junk (p ∷ []))) hw
                (hb ∙ ap (λ l. done ++ l) (sym (append_assoc junk (p ∷ []) rest)))))
      | inr full ↦
          let (junk', same, moved) = overwrite done junk rest p (trim_space p) in
          rw (read, compact)
            (rw (full, compact)
              (compact-kept (done ++ (trim_space p ∷ [])) junk' rest (suc i) (suc w)
                  (set b w (trim_space p)) (omega (arith, length-append done (trim_space p ∷ [])))
                  (omega (arith, length-append done (trim_space p ∷ []))) (rw (hw, hb) moved)
                ∙ append_assoc done (trim_space p ∷ []) (kept rest)))
    ]

-- The loop of `split` writes its result into the array that it still reads, and returns all the same
-- the parts that are not blank, trimmed and in order.
pub split-kept : (s : String) → split s ≡ kept (split_comma s)
unfolding split
split-kept s = compact-kept [] [] (split_comma s) 0 0 (split_comma s) refl refl refl
