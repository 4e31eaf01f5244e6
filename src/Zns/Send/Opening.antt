-- ===== src/Zns/Send/Opening.antt =====
-- zns_mgmt_send.c: opening a zone explicitly.
use nvmevirt_fdp.Prelude.{
  ℕ, ◌+◌, ◌≡◌, refl, ltb, fun_ext, Bool-cases, inl, inr, ◌==◌, if◌then◌else◌, Bool, true, false,
  arith,
}
use nvmevirt_fdp.Ssd.Config.{u32}
use nvmevirt_fdp.Zns.State.{
  ZoneState, zone_empty, opened_impl, opened_expl, closed, ZoneDesc, ZoneResource, ZnsFtl,
  change_zone_state,
}
use nvmevirt_fdp.Zns.Send.{open_zone_explicitly, open_empty_zone, open_closed_zone}
use nvmevirt_fdp.Fdp.Namespace.{nvme_sc_success}
use nvmevirt_fdp.Zns.Resources.{opens, reopens, promotes, HasRoom, Changed, Changed-same, changed}
use nvmevirt_fdp.Zns.Send.Transitions.{same_number}

-- An empty zone finds every resource available.
abbrev pub HasAll : ZnsFtl → Type 0
HasAll f =
    ((f.res_active.acquired_cnt == f.res_active.total_cnt) ≡ false)
    × ((f.res_open.acquired_cnt == f.res_open.total_cnt) ≡ false)
    × ((f.res_zrwa.acquired_cnt == f.res_zrwa.total_cnt) ≡ false)
    × (ltb f.res_active.acquired_cnt f.res_active.total_cnt ≡ true)
    × (ltb f.res_open.acquired_cnt f.res_open.total_cnt ≡ true)
    × (ltb f.res_zrwa.acquired_cnt f.res_zrwa.total_cnt ≡ true)

pub empty_room :
    (f : ZnsFtl) (zid : ℕ) → (f.zone_descs zid).state ≡ zone_empty → HasRoom f zid → HasAll f
empty_room f zid e h = ground arith

abbrev pub acquired : ZoneResource → ZoneResource
acquired r = record r { acquired_cnt = u32 (r.acquired_cnt + 1) }

abbrev pub opened_plain : ZnsFtl → ℕ → ZnsFtl
opened_plain f zid =
    change_zone_state
      (record f { res_active = acquired f.res_active; res_open = acquired f.res_open }) zid
      opened_expl

abbrev pub opened_with_zrwa : ZnsFtl → ℕ → ZnsFtl
opened_with_zrwa f zid =
    change_zone_state
      (record f {
        res_active = acquired f.res_active;
        res_open = acquired f.res_open;
        res_zrwa = acquired f.res_zrwa;
        zone_descs =
            λ i. if zid == i then record (f.zone_descs zid) { zrwav = true } else f.zone_descs i;
      })
      zid opened_expl

pub open_plain_lem :
    (f : ZnsFtl) (zid : ℕ)
    → HasAll f
    → open_empty_zone f zid false ≡ (nvme_sc_success, opened_plain f zid)
unfolding open_empty_zone open_closed_zone
open_plain_lem f zid r = rw (r.0, r.1, r.3, r.4)

pub open_with_zrwa_lem :
    (f : ZnsFtl) (zid : ℕ)
    → HasAll f
    → open_empty_zone f zid true ≡ (nvme_sc_success, opened_with_zrwa f zid)
unfolding open_empty_zone open_closed_zone
open_with_zrwa_lem f zid r = rw (r.0, r.1, r.2, r.5, r.3, r.4)

-- The ZRWA and the state are set one after the other.
twice :
    (ds : ℕ → ZoneDesc) (zid : ℕ)
    → ◌≡◌ {A = ℕ → ZoneDesc}
        (λ i.
          if zid == i
          then (record (if zid == zid then record (ds zid) { zrwav = true } else ds zid) {
            state = opened_expl;
          })
          else if zid == i
          then record (ds zid) { zrwav = true }
          else ds i)
        (λ i. if zid == i then record (ds zid) { state = opened_expl; zrwav = true } else ds i)
twice ds zid =
    fun_ext λ i. elim (Bool-cases (zid == i)) [ inl e ↦ rw (e, same_number zid) | inr e ↦ rw e ]

pub open_zone-at :
    (f : ZnsFtl) (zid : ℕ) (zrwa : Bool) (s : ZoneState)
    → (f.zone_descs zid).state ≡ s
    → HasRoom f zid
    → Changed f zid (open_zone_explicitly f zid zrwa).1
unfolding open_zone_explicitly open_closed_zone
open_zone-at f zid zrwa opened_impl e h =
    rw (e, open_zone_explicitly)
      (changed f _ zid (record (f.zone_descs zid) { state = opened_expl }) (rw e promotes) (λ x. cc)
        refl refl (ground arith))
open_zone-at f zid zrwa closed e h =
    let r : ltb f.res_open.acquired_cnt f.res_open.total_cnt ≡ true = ground arith in
    rw (e, r, open_zone_explicitly)
      (changed f _ zid (record (f.zone_descs zid) { state = opened_expl }) (rw e reopens) (λ x. cc)
        refl refl (ground arith))
open_zone-at f zid false zone_empty e h =
    rw (e, open_zone_explicitly, open_plain_lem f zid (empty_room f zid e h))
      (changed f (opened_plain f zid) zid (record (f.zone_descs zid) { state = opened_expl })
        (rw e opens) (λ x. cc) refl refl (ground arith))
open_zone-at f zid true zone_empty e h =
    rw (e, open_zone_explicitly, open_with_zrwa_lem f zid (empty_room f zid e h))
      (changed f (opened_with_zrwa f zid) zid
        (record (f.zone_descs zid) { state = opened_expl; zrwav = true }) (rw e opens) (λ x. cc)
        (twice f.zone_descs zid) refl (ground arith))
open_zone-at f zid zrwa _ e h = rw (e, open_zone_explicitly) (Changed-same f zid h)
