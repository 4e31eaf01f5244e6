-- ===== src/Zns/Send/Outcomes.antt =====
-- zns_mgmt_send.c: what opening and resetting a zone achieve.
use nvmevirt_fdp.Prelude.{
  ℕ, ◌+◌, ◌*◌, ◌≤◌, ◌<◌, ◌≡◌, ◌≢◌, refl, Bool, true, false, ◌&&◌, arith, ltb, leb, ◌==◌, if-rule,
  dec_lt, times-le,
}
use nvmevirt_fdp.Zns.State.{
  ZoneState, zone_empty, opened_impl, opened_expl, closed, full, ZnsFtl, open_zone,
  change_zone_state, release_zone_resource,
}
use nvmevirt_fdp.Fdp.Namespace.{nvme_sc_success}
use nvmevirt_fdp.Zns.Send.{
  open_zone_explicitly, open_closed_zone, reset_zone, reset_storage, release_active,
}
use nvmevirt_fdp.Zns.Resources.{HasRoom, IsAccounted, IsAccounted-HasRoom}
use nvmevirt_fdp.Zns.Send.Opening.{empty_room, open_plain_lem, open_with_zrwa_lem}

-- Whether a zone can be opened.
abbrev pub is_openable : ZoneState → Bool
is_openable ZoneState.zone_empty = true
is_openable ZoneState.opened_impl = true
is_openable ZoneState.opened_expl = true
is_openable ZoneState.closed = true
is_openable ZoneState.read_only = false
is_openable ZoneState.full = false
is_openable ZoneState.offline = false

-- The command succeeded and left the zone in a state.
abbrev pub Leaves : ZoneState → ℕ → ℕ × ZnsFtl → Type 0
Leaves s zid r = (r.0 ≡ nvme_sc_success) × ((r.1.zone_descs zid).state ≡ s)

same_number : (n : ℕ) → (n == n) ≡ true
same_number n = ground arith

opened-at :
    (f : ZnsFtl) (zid : ℕ) (zrwa : Bool) (s : ZoneState)
    → (f.zone_descs zid).state ≡ s
    → is_openable s ≡ true
    → HasRoom f zid
    → Leaves opened_expl zid (open_zone_explicitly f zid zrwa)
unfolding open_zone_explicitly open_closed_zone
opened-at f zid false zone_empty e o h =
    rw (e, open_zone_explicitly, open_plain_lem f zid (empty_room f zid e h), same_number zid)
      (refl, refl)
opened-at f zid true zone_empty e o h =
    rw (e, open_zone_explicitly, open_with_zrwa_lem f zid (empty_room f zid e h), same_number zid)
      (refl, refl)
opened-at f zid zrwa opened_impl e o h = rw (e, open_zone_explicitly, same_number zid) (refl, refl)
opened-at f zid zrwa opened_expl e o h = rw (e, open_zone_explicitly) (refl, e)
opened-at f zid zrwa closed e o h =
    let r : ltb f.res_open.acquired_cnt f.res_open.total_cnt ≡ true = ground arith in
    rw (e, r, open_zone_explicitly, same_number zid) (refl, refl)
opened-at f zid zrwa _ e o h = cc

-- On a state whose counts are those of its zones, every zone that is not full, read-only or offline can
-- be opened: there is always a resource for it.
pub open_zone_explicitly-opens :
    (f : ZnsFtl) (zid : ℕ) (zrwa : Bool)
    → IsAccounted f
    → zid < f.zp.nr_zones
    → is_openable (f.zone_descs zid).state ≡ true
    → Leaves opened_expl zid (open_zone_explicitly f zid zrwa)
open_zone_explicitly-opens f zid zrwa v h o =
    opened-at f zid zrwa (f.zone_descs zid).state refl o (IsAccounted-HasRoom f zid v h)

-- Whether a zone can be reset.
abbrev pub is_resettable : ZoneState → Bool
is_resettable ZoneState.zone_empty = true
is_resettable ZoneState.opened_impl = true
is_resettable ZoneState.opened_expl = true
is_resettable ZoneState.closed = true
is_resettable ZoneState.read_only = false
is_resettable ZoneState.full = true
is_resettable ZoneState.offline = false

-- An empty zone, written from its start, whose bytes are 0; the bytes of other zones stay.
pub record Erased (f : ZnsFtl) (zid : ℕ) (r : ℕ × ZnsFtl) : Type 0 where
  pub status : r.0 ≡ nvme_sc_success
  pub state : (r.1.zone_descs zid).state ≡ zone_empty
  pub wp : (r.1.zone_descs zid).wp ≡ (f.zone_descs zid).zslba
  pub zrwav : (r.1.zone_descs zid).zrwav ≡ false
  pub bytes :
      (a : ℕ)
      → zid * f.zp.zone_size ≤ a
      → a < zid * f.zp.zone_size + f.zp.zone_size
      → r.1.storage a ≡ 0
  pub others :
      (i o : ℕ)
      → i ≢ zid
      → o < f.zp.zone_size
      → r.1.storage (i * f.zp.zone_size + o) ≡ f.storage (i * f.zp.zone_size + o)

next_times : (i w : ℕ) → (i + 1) * w ≡ i * w + w
next_times i w = grind arith

apart :
    (i zid o w : ℕ)
    → i ≢ zid
    → o < w
    → (leb (zid * w) (i * w + o) && ltb (i * w + o) (zid * w + w)) ≡ false
apart i zid o w n h = elim (dec_lt i zid) [
  | yes lt ↦ ground (arith, times-le (i + 1) zid w (omega arith), next_times i w)
  | no ge ↦ ground (arith, times-le (zid + 1) i w (ground arith), next_times zid w)
]

-- The counts are not looked at.
erased :
    (f g : ZnsFtl) (zid : ℕ)
    → g.zone_descs ≡ f.zone_descs
    → g.storage ≡ f.storage
    → g.zp ≡ f.zp
    → Erased f zid (nvme_sc_success, reset_storage (change_zone_state g zid zone_empty) zid)
unfolding reset_storage
erased f g zid d m z = record {
  status = refl;
  state = rw (same_number zid) refl;
  wp = rw (same_number zid, d) refl;
  zrwav = rw (same_number zid) refl;
  bytes = λ a h k.
      let inside : (leb (zid * g.zp.zone_size) a && ltb a (zid * g.zp.zone_size + g.zp.zone_size))
          ≡ true =
        rw z (ground arith) in
      rw inside refl;
  others = λ i o n h.
      let out : (leb (zid * g.zp.zone_size) (i * f.zp.zone_size + o)
            && ltb (i * f.zp.zone_size + o) (zid * g.zp.zone_size + g.zp.zone_size))
          ≡ false =
        rw z (apart i zid o f.zp.zone_size n h) in
      rw (out, m) refl;
}

-- What an active zone gives back changes counts only.
module _ (f g : ZnsFtl) (zid : ℕ) (d : g.zone_descs ≡ f.zone_descs) (m : g.storage ≡ f.storage)
    (z : g.zp ≡ f.zp) where
  active-Erased :
      Erased f zid (
        nvme_sc_success,
        reset_storage (change_zone_state (release_active g zid) zid zone_empty) zid,
      )
  active-Erased =
      erased f (release_active g zid) zid
        (if-rule {A = ZnsFtl} (λ h. h.zone_descs ≡ f.zone_descs) (g.zone_descs zid).zrwav _ _ d d)
        (if-rule {A = ZnsFtl} (λ h. h.storage ≡ f.storage) (g.zone_descs zid).zrwav _ _ m m)
        (if-rule {A = ZnsFtl} (λ h. h.zp ≡ f.zp) (g.zone_descs zid).zrwav _ _ z z)

reset-at :
    (f : ZnsFtl) (zid : ℕ) (s : ZoneState)
    → (f.zone_descs zid).state ≡ s
    → is_resettable s ≡ true
    → Erased f zid (reset_zone f zid)
unfolding reset_zone
reset-at f zid opened_impl e o =
    rw (e, reset_zone) (active-Erased f (release_zone_resource f open_zone) zid refl refl refl)
reset-at f zid opened_expl e o =
    rw (e, reset_zone) (active-Erased f (release_zone_resource f open_zone) zid refl refl refl)
reset-at f zid closed e o = rw (e, reset_zone) (active-Erased f f zid refl refl refl)
reset-at f zid full e o = rw (e, reset_zone) (erased f f zid refl refl refl)
reset-at f zid zone_empty e o = rw (e, reset_zone) (erased f f zid refl refl refl)
reset-at f zid _ e o = cc

-- A reset of a zone that is neither read-only nor offline succeeds: the zone is empty and written from
-- its start, its bytes are 0, and the bytes of every other zone stay.
pub reset_zone-Erased :
    (f : ZnsFtl) (zid : ℕ)
    → is_resettable (f.zone_descs zid).state ≡ true
    → Erased f zid (reset_zone f zid)
reset_zone-Erased f zid o = reset-at f zid (f.zone_descs zid).state refl o
