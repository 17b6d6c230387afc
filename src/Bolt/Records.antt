-- ===== src/Bolt/Records.antt =====
-- internal/memgraph/bolt.go, `replicationLagFromRecord`: what stands behind a lag that reads as caught up.
use kubernetes_operator.Prelude.{
  String, ◌≡◌, refl, sym, ap, ◌∙◌, subst, ◌⊎◌, inl, inr, true, false, not, Option, none, some, List,
  [], ◌∷◌, In, In_of_all, ◌==◌, Bool-cases, arith,
}
use kubernetes_operator.Prelude.Int.{ℤ, pos, ltb_ℤ}
use kubernetes_operator.Prelude.Sorted.{In-sort_by}
use kubernetes_operator.Memgraph.{
  DatabaseLag, ReplicationLag, behind, databases_caught_up, is_caught_up,
}
use kubernetes_operator.Bolt.Rows.{
  Fields, get, string_column, as_map, map_column, int_entry, field_names, database_counters,
  entry_of, database_lag, prepend, database_lags, lag_of, lag_from_databases,
  replication_lag_from_record,
}

module _ (name : String) (databases : Fields) where
  -- The database has both counters, and is not behind by the second.
  abbrev pub Counted : String → (ℤ → Type 0) → Type 0
  Counted k Fits =
      (counters : Fields) × (as_map (get k databases) ≡ some counters)
      × ((committed : ℤ) × (int_entry counters "num_committed_txns" ≡ some committed))
      × ((lag : ℤ) × (int_entry counters "num_txns_behind_main" ≡ some lag) × Fits lag)

  database_lag_counted :
      (k : String) (d : DatabaseLag)
      → database_lag name databases k ≡ inr d
      → Counted k (λ lag. lag ≡ d.txns_behind_main)
  unfolding database_lag
  database_lag_counted k d h = from (as_map (get k databases)) refl h
    where
      counters_from :
          (m : Fields)
          → as_map (get k databases) ≡ some m
          → (c b : Option ℤ) → int_entry m "num_committed_txns" ≡ c
          → int_entry m "num_txns_behind_main" ≡ b
          → database_counters name k (some m) c b ≡ inr d
          → Counted k (λ lag. lag ≡ d.txns_behind_main)
      counters_from m at none b e f g = unfold database_counters in cc
      counters_from m at (some c) none e f g = unfold database_counters in cc
      counters_from m at (some c) (some b) e f g =
          unfold database_counters in
          let same : record { database = k; committed_txns = c; txns_behind_main = b } ≡ d = cc in
          (m, at, (c, e), (b, f, ap (λ (x : DatabaseLag). x.txns_behind_main) same))

      from :
          (o : Option Fields)
          → as_map (get k databases) ≡ o
          → database_counters name k o
              (entry_of o "num_committed_txns")
              (entry_of o "num_txns_behind_main")
            ≡ inr d
          → Counted k (λ lag. lag ≡ d.txns_behind_main)
      from none at g = unfold database_counters in cc
      from (some m) at g = unfold entry_of in counters_from m at _ _ refl refl g

  prepend-inr :
      (o : String ⊎ DatabaseLag) (rest : String ⊎ List DatabaseLag) (ds : List DatabaseLag)
      → prepend o rest ≡ inr ds
      → (d : DatabaseLag) × (later : List DatabaseLag) × (o ≡ inr d)
        × (rest ≡ inr later)
        × (d ∷ later ≡ ds)
  unfolding prepend
  prepend-inr (inl e) rest ds h = cc
  prepend-inr (inr d) (inl e) ds h = cc
  prepend-inr (inr d) (inr later) ds h = (d, later, refl, refl, cc)

  database_lags_each :
      (ks : List String) (ds : List DatabaseLag) (k : String)
      → database_lags name databases ks ≡ inr ds
      → In k ks
      → (d : DatabaseLag) × In d ds × (database_lag name databases k ≡ inr d)
  unfolding database_lags
  database_lags_each [] ds k h i = absurd i
  database_lags_each (j ∷ ks) ds k h i =
      let (d, later, first, rest, whole) = prepend-inr _ _ ds h in
      elim i [
        | inl same ↦ (
          d,
          subst (λ (l : List DatabaseLag). In d l) whole (inl refl),
          ap (database_lag name databases) (sym same) ∙ first,
        )
        | inr i' ↦
            let (e, there, found) = database_lags_each ks later k rest i' in
            (e, subst (λ (l : List DatabaseLag). In e l) whole (inr there), found)
      ]

not_behind :
    (ds : List DatabaseLag) (d : DatabaseLag)
    → databases_caught_up ds ≡ true
    → In d ds
    → ltb_ℤ (pos 0) d.txns_behind_main ≡ false
unfolding databases_caught_up behind
not_behind [] d h i = absurd i
not_behind (e ∷ ds) d h i =
    let here = In_of_all (λ (x : DatabaseLag). not (behind x)) d (e ∷ ds) h i in ground arith

lag_inr :
    (name : String) (o : String ⊎ List DatabaseLag) (l : ReplicationLag)
    → lag_of name o ≡ inr l
    → o ≡ inr l.databases
unfolding lag_of
lag_inr name (inl e) l h = cc
lag_inr name (inr ds) l h =
    let same : record { instance_name = name; databases = ds } ≡ l = cc in
    ap (λ (x : ReplicationLag). inr x.databases) same

-- A row that decodes to a lag which is caught up carries a map of databases in which each database has
-- both counters, as numbers, and is not behind: a counter that is missing or is no number never reads as
-- caught up.
pub caught_up_counted :
    (r : Fields) (l : ReplicationLag)
    → replication_lag_from_record r ≡ inr l
    → is_caught_up l ≡ true
    → (databases : Fields) × (map_column r "data_info" ≡ some databases)
      × ((k : String)
          → In k (field_names databases)
          → Counted
              (string_column r "instance_name")
              databases
              k
              (λ lag. ltb_ℤ (pos 0) lag ≡ false))
unfolding replication_lag_from_record is_caught_up
caught_up_counted r l h caught = elim (Bool-cases (string_column r "instance_name" == "")) [
  | inl t ↦
      let never : ◌≡◌ {A = String ⊎ ReplicationLag}
          (inl "SHOW REPLICATION LAG row carries no instance_name") (inr l) =
        rw t at h in
      cc
  | inr f ↦ from (map_column r "data_info") refl (rw f at h)
]
  where
    from :
        (o : Option Fields)
        → map_column r "data_info" ≡ o
        → lag_from_databases (string_column r "instance_name") o ≡ inr l
        → (databases : Fields) × (map_column r "data_info" ≡ some databases)
          × ((k : String)
              → In k (field_names databases)
              → Counted
                  (string_column r "instance_name")
                  databases
                  k
                  (λ lag. ltb_ℤ (pos 0) lag ≡ false))
    from none at g = unfold lag_from_databases in cc
    from (some databases) at g =
        unfold lag_from_databases in
        let name = string_column r "instance_name" in
        let lags = lag_inr name _ l g in
        (
          databases,
          at,
          λ k i.
              let (d, there, found) =
                database_lags_each name databases _ l.databases k lags
                  ((In-sort_by (λ s. s) k (field_names databases)).1 i) in
              let (m, counters, committed, (lag, read, same)) =
                database_lag_counted name databases k d found in
              (
                m,
                counters,
                committed,
                (lag, read, ap (ltb_ℤ (pos 0)) same ∙ not_behind l.databases d caught there),
              ),
        )
