-- ===== src/Lkm/PgdRange/Same.antt =====
-- What sa_tlb_add and free_pte_range of lkm/core/api.c do to the entries of the tables.
use shadow_stack_llvm.Prelude.{
  ℕ, zero, suc, ◌+◌, ◌%◌, ◌^◌, ◌≡◌, refl, ◌∙◌, inl, inr, true, ◌==◌, update, Bool-cases,
  Option-cases,
}
use shadow_stack_llvm.Lkm.Layout.{page_size}
use shadow_stack_llvm.Lkm.PageTable.{Level, pmd}
use shadow_stack_llvm.Lkm.PgdRange.{
  Entries, max_batch_size, Batch, Tlb, free_tables, put_table, sa_tlb_add, tlb_free_pte,
  tlb_adjust_range, free_pte_range,
}

module _ (v : Entries) where
  open v use {Mm, is_none, is_bad, clear, mm_dec_nr, get_free_page, free_page, addr_end, offset}

  -- The entries are the same.
  pub record Same (mm mm' : Mm) : Type 0 where
    pub none_same : (k : Level) (q : ℕ) → is_none mm' k q ≡ is_none mm k q
    pub bad_same : (k : Level) (q : ℕ) → is_bad mm' k q ≡ is_bad mm k q

  Same-trans : {a b c : Mm} → Same a b → Same b c → Same a c
  Same-trans f g = record {
    none_same = λ k q. g.none_same k q ∙ f.none_same k q;
    bad_same = λ k q. g.bad_same k q ∙ f.bad_same k q;
  }

  free_page-Same : (page : ℕ) (mm : Mm) → Same mm (free_page page mm)
  free_page-Same page mm = record {
    none_same = λ k q. v.is_none-free_page page k q mm;
    bad_same = λ k q. v.is_bad-free_page page k q mm;
  }

  free_tables-Same : (n : ℕ) (tables : ℕ → ℕ) (mm : Mm) → Same mm (free_tables v n tables mm)
  unfolding free_tables
  free_tables-Same zero tables mm = record { none_same = λ k q. refl; bad_same = λ k q. refl }
  free_tables-Same (suc n) tables mm =
      Same-trans (free_tables-Same n tables mm) (free_page-Same (tables n) _)

  put_table-Same : (page : ℕ) (b : Batch) (tlb : Tlb v) → Same tlb.mm (put_table v page b tlb).mm
  unfolding put_table
  put_table-Same page b tlb =
      let nr = (b.nr + 1) % 2 ^ 32 in
      elim (Bool-cases (nr == max_batch_size)) [
        | inl full ↦ rw full (free_tables-Same nr (update b.tables b.nr page) tlb.mm)
        | inr room ↦ rw room (record { none_same = λ k q. refl; bad_same = λ k q. refl })
      ]

  sa_tlb_add-Same : (page : ℕ) (tlb : Tlb v) → Same tlb.mm (sa_tlb_add v page tlb).mm
  unfolding sa_tlb_add
  sa_tlb_add-Same page tlb =
      let mm1 = (get_free_page tlb.mm).1 in
      let first : Same tlb.mm mm1 = record {
        none_same = λ k q. v.is_none-get_free_page k q tlb.mm;
        bad_same = λ k q. v.is_bad-get_free_page k q tlb.mm;
      } in
      elim (Option-cases tlb.batch) [
        | inr (b, there) ↦ rw (there, sa_tlb_add) (put_table-Same page b tlb)
        | inl absent ↦ elim (Option-cases (get_free_page tlb.mm).0) [
          | inl refused ↦
              rw (absent, refused, sa_tlb_add) (Same-trans first (free_page-Same page mm1))
          | inr (got, e) ↦
              rw (absent, e, sa_tlb_add)
                (Same-trans first (
                  put_table-Same page (record { page = got.0; nr = 0; tables = got.1 })
                    (record tlb { mm = mm1 })))
        ]
      ]

  tlb_free_pte-Same : (page addr : ℕ) (tlb : Tlb v) → Same tlb.mm (tlb_free_pte v page addr tlb).mm
  unfolding tlb_free_pte tlb_adjust_range
  tlb_free_pte-Same page addr tlb =
      sa_tlb_add-Same page (record (tlb_adjust_range v addr page_size tlb) { clear_pmds = true })

  pub free_pte_range-Same :
      (entry addr next : ℕ) (tlb : Tlb v)
      → Same (clear pmd entry tlb.mm) (free_pte_range v entry addr next tlb).mm
  unfolding free_pte_range
  free_pte_range-Same entry addr next tlb =
      let cleared : Tlb v = record tlb { mm = clear pmd entry tlb.mm } in
      let page = v.pmd_pgtable tlb.mm entry in
      let given = (tlb_free_pte v page addr cleared).mm in
      Same-trans (tlb_free_pte-Same page addr cleared) (record {
        none_same = λ k q. v.is_none-mm_dec_nr pmd k q given;
        bad_same = λ k q. v.is_bad-mm_dec_nr pmd k q given;
      })
