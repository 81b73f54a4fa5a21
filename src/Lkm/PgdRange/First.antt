-- ===== src/Lkm/PgdRange/First.antt =====
-- free_pud_range of lkm/core/api.c, whose loop ends after the first entry.
