-- ===== src/Fdp/Mapping.antt =====
-- fdp_ftl.c: the mapping table, from logical pages to addresses, and the reverse map, from the
-- numbers of pages to logical pages.
use nvmevirt_fdp.Prelude.{ℕ, Option, some, ◌==◌, if◌then◌else◌, ◌>>=◌, ◌>>◌, nvmev_assert, ltb}
use nvmevirt_fdp.Ssd.Address.{Ppa, of_word, unmapped_ppa, invalid_lpn}
use nvmevirt_fdp.Ssd.Geometry.{ppa2pgidx}
use nvmevirt_fdp.Fdp.State.{Ftl}

-- `init_maptbl` and `init_rmap`, which fill the whole tables.
unfoldable pub init_maptbl : ℕ → Ppa
init_maptbl _ = of_word unmapped_ppa

unfoldable pub init_rmap : ℕ → ℕ
init_rmap _ = invalid_lpn

module _ {Q : Type 0} where
  abbrev pub get_maptbl_ent : Ftl Q → ℕ → Ppa
  get_maptbl_ent f lpn = f.maptbl lpn

  unfoldable pub set_maptbl_ent : Ftl Q → ℕ → Ppa → Option (Ftl Q)
  set_maptbl_ent f lpn p = do
    nvmev_assert (ltb lpn f.sp.tt_pgs)
    some (record f { maptbl = λ l. if lpn == l then p else f.maptbl l })

  unfoldable pub get_rmap_ent : Ftl Q → Ppa → Option ℕ
  get_rmap_ent f p = do pgidx ← ppa2pgidx f.sp p; some (f.rmap pgidx)

  unfoldable pub set_rmap_ent : Ftl Q → ℕ → Ppa → Option (Ftl Q)
  set_rmap_ent f lpn p = do
    pgidx ← ppa2pgidx f.sp p
    some (record f { rmap = λ i. if pgidx == i then lpn else f.rmap i })
