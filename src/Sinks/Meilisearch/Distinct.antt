-- ===== src/Sinks/Meilisearch/Distinct.antt =====
-- meilisearch/sink.go, addDoc: the documents of a run keep distinct keys.
use gtc.Base.{
  ℕ, zero, suc, ◌≡◌, refl, sym, ap, ◌∙◌, String, eq_refl, false, List, [], ◌∷◌, ◌++◌, none, some,
  length, if◌then◌else◌,
}
use gtc.Sinks.Meilisearch.{Doc, modify, key_in}
use gtc.Sinks.Meilisearch.Effects.{
  Distinct, index_of, is_id, is_id-eq, first_is, later_is, none_is, differ, append-index,
  modify-Modified,
}

-- a document with another key is not found after one is added at the end
absent-append :
    (key id j : String) (x d : Doc) (ds : List Doc)
    → key_in key x ≡ some id
    → key_in key d ≡ some j
    → is_id (key_in key d) id ≡ false
    → index_of key id ds ≡ none
    → index_of key j ds ≡ none
    → index_of key j (ds ++ (x ∷ [])) ≡ none
absent-append key id j x d ds h own not_here gone absent =
    (append-index key id x ds j h gone).0
    ∙ ap (λ b. if b then some (length ds) else index_of key j ds)
        (differ (key_in key d) id j not_here (ap (λ o. is_id o j) own ∙ eq_refl j))
    ∙ absent

pub append-Distinct :
    (key id : String) (x : Doc) (ds : List Doc)
    → key_in key x ≡ some id
    → index_of key id ds ≡ none
    → Distinct key ds
    → Distinct key (ds ++ (x ∷ []))
unfolding index_of
append-Distinct key id x [] h n u = ((id, h, refl), tt)
append-Distinct key id x (d ∷ ds) h n ((j, own, absent), u) =
    let (not_here, later) = none_is (is_id (key_in key d) id) (index_of key id ds) n in
    (
      (j, own, absent-append key id j x d ds h own not_here later absent),
      append-Distinct key id x ds h later u,
    )

module _ (key id : String) (f : Doc → Doc)
    (keyed : (old : Doc) → key_in key (f old) ≡ some id) where
  pub modify-Distinct :
      (n : ℕ) (ds : List Doc)
      → index_of key id ds ≡ some n
      → Distinct key ds
      → Distinct key (modify n f ds)
  unfolding index_of modify
  modify-Distinct n [] h u = absurd (cc h)
  modify-Distinct zero (d ∷ ds) h ((j, own, absent), u) =
      let here =
        is_id-eq (key_in key d) id (first_is (is_id (key_in key d) id) (index_of key id ds) h) in
      ((j, keyed d ∙ sym here ∙ own, absent), u)
  modify-Distinct (suc n) (d ∷ ds) h ((j, own, absent), u) =
      let later = (later_is (is_id (key_in key d) id) (index_of key id ds) n h).1 in
      (
        (j, own, (modify-Modified key id f keyed n ds j later).0 ∙ absent),
        modify-Distinct n ds later u,
      )
