-- ===== src/Db/Table.antt =====
-- A table of rows by id with an index of them by name, as src/db/repositories.cpp keeps for users
-- and for rooms.
use chat_system_cpp_chat_ser.Base.{
  ℕ, suc, ◌<◌, ◌≡◌, sym, ap, ◌∙◌, inl, inr, false, none, some, arith, Bool-cases, some_inj, nat_beq,
  nat_beq_iff, nat_eq, Bytes, bytes_beq, bytes_beq_iff, bytes_eq,
}
use chat_system_cpp_chat_ser.Base.Map
use chat_system_cpp_chat_ser.Base.Map.{Map, find-insert_same, find-insert_other}

module _ {R : Type 0} (ident : R → ℕ) (key : R → Bytes) where
  -- The table and its index agree; ids are positive and below the next one.
  pub record IsIndexed (rows : Map ℕ R) (index : Map Bytes ℕ) (next : ℕ) : Type 0 where
    pub named :
        (name : Bytes) (id : ℕ)
        → Map.find name index ≡ some id
        → (r : R) × (Map.find id rows ≡ some r) × (key r ≡ name)
    pub indexed :
        (id : ℕ) (r : R)
        → Map.find id rows ≡ some r
        → (ident r ≡ id) × (0 < id) × (id < next) × (Map.find (key r) index ≡ some id)
    pub positive : 0 < next

module _ {R : Type 0} {ident : R → ℕ} {key : R → Bytes} {rows : Map ℕ R} {index : Map Bytes ℕ}
    {next : ℕ} (v : IsIndexed ident key rows index next) (row : R) where
  module _ (is_next : ident row ≡ next) (free : Map.find (key row) index ≡ none) where
    added_named :
        (name : Bytes) (id : ℕ)
        → Map.find name (Map.insert (key row) next index) ≡ some id
        → (r : R) × (Map.find id (Map.insert next row rows) ≡ some r) × (key r ≡ name)
    added_named name id h = elim (Bool-cases (bytes_beq (key row) name)) [
      | inl e ↦
          let same : next ≡ id =
            some_inj (sym (find-insert_same (key row) name next index e) ∙ h) in
          (
            row,
            find-insert_same next id row rows ((nat_beq_iff next id).1 same),
            (bytes_beq_iff (key row) name).0 e,
          )
      | inr e ↦
          let old = v.named name id (sym (find-insert_other (key row) name next index e) ∙ h) in
          let below = v.indexed id old.0 old.1 in
          (old.0, find-insert_other next id row rows (ground arith) ∙ old.1, old.2)
    ]

    added_indexed :
        (id : ℕ) (r : R)
        → Map.find id (Map.insert next row rows) ≡ some r
        → (ident r ≡ id)
          × (0 < id)
          × (id < suc next)
          × (Map.find (key r) (Map.insert (key row) next index) ≡ some id)
    added_indexed id r h = elim (Bool-cases (nat_beq next id)) [
      | inl e ↦
          let same : row ≡ r = some_inj (sym (find-insert_same next id row rows e) ∙ h) in
          let at : next ≡ id = (nat_beq_iff next id).0 e in
          (
            ap ident (sym same) ∙ is_next ∙ at,
            rw (← at) v.positive,
            omega arith,
            find-insert_same (key row) (key r) next index
                  ((bytes_beq_iff (key row) (key r)).1 (ap key same))
                ∙ ap some at,
          )
      | inr e ↦
          let old = v.indexed id r (sym (find-insert_other next id row rows e) ∙ h) in
          (
            old.0,
            old.1,
            omega arith,
            find-insert_other (key row) (key r) next index (other r id old.3) ∙ old.3,
          )
    ]
      where
        other :
            (q : R) (i : ℕ) → Map.find (key q) index ≡ some i → bytes_beq (key row) (key q) ≡ false
        other q i k = elim (Bool-cases (bytes_beq (key row) (key q))) [
          | inl e ↦
              let same = (bytes_beq_iff (key row) (key q)).0 e in
              let clash : none ≡ some i = sym free ∙ ap (λ t. Map.find t index) same ∙ k in cc
          | inr e ↦ e
        ]

    -- A new row under the next id and a name that is free.
    pub added-IsIndexed :
        IsIndexed ident key (Map.insert next row rows) (Map.insert (key row) next index) (suc next)
    added-IsIndexed = record {
      named = added_named;
      indexed = added_indexed;
      positive = omega arith;
    }

  -- A row that replaces one with its id and its name.
  pub replaced-IsIndexed :
      (old : R)
      → Map.find (ident row) rows ≡ some old
      → key row ≡ key old
      → IsIndexed ident key (Map.insert (ident row) row rows) index next
  replaced-IsIndexed old h k = record {
    named = λ name id at. replaced_named name id (v.named name id at);
    indexed = replaced_indexed;
    positive = v.positive;
  }
    where
      replaced_named :
          (name : Bytes) (id : ℕ)
          → ((r : R) × (Map.find id rows ≡ some r) × (key r ≡ name))
          → (r : R) × (Map.find id (Map.insert (ident row) row rows) ≡ some r) × (key r ≡ name)
      replaced_named name id (r, at, e) = elim (Bool-cases (nat_beq (ident row) id)) [
        | inl same ↦
            let i : ident row ≡ id = (nat_beq_iff (ident row) id).0 same in
            let o : old ≡ r = some_inj (sym h ∙ ap (λ t. Map.find t rows) i ∙ at) in
            (row, find-insert_same (ident row) id row rows same, k ∙ ap key o ∙ e)
        | inr differ ↦ (r, find-insert_other (ident row) id row rows differ ∙ at, e)
      ]

      replaced_indexed :
          (id : ℕ) (r : R)
          → Map.find id (Map.insert (ident row) row rows) ≡ some r
          → (ident r ≡ id) × (0 < id) × (id < next) × (Map.find (key r) index ≡ some id)
      replaced_indexed id r at = elim (Bool-cases (nat_beq (ident row) id)) [
        | inl same ↦
            let i : ident row ≡ id = (nat_beq_iff (ident row) id).0 same in
            let o : row ≡ r = some_inj (sym (find-insert_same (ident row) id row rows same) ∙ at) in
            let before = v.indexed id old (ap (λ t. Map.find t rows) (sym i) ∙ h) in
            (
              ap ident (sym o) ∙ i,
              before.1,
              before.2,
              ap (λ t. Map.find t index) (ap key (sym o) ∙ k) ∙ before.3,
            )
        | inr differ ↦ v.indexed id r (sym (find-insert_other (ident row) id row rows differ) ∙ at)
      ]
