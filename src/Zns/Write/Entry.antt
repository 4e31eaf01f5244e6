-- ===== src/Zns/Write/Entry.antt =====
-- zns_read_write.c: `__zns_write`, the switch on the state of the zone, and `__increase_write_ptr`.
use nvmevirt_fdp.Prelude.{
  ℕ, ◌+◌, ◌≡◌, ◌≢◌, refl, true, false, not, arith, ltb, ◌==◌, if◌then◌else◌, if-rule,
}
use nvmevirt_fdp.Ssd.Config.{u32, u64}
use nvmevirt_fdp.Fdp.Namespace.{nvme_sc_success}
use nvmevirt_fdp.Zns.State.{
  ZoneState, zone_empty, opened_impl, opened_expl, closed, full, ZoneDesc, ZnsFtl, active_zone,
  open_zone, zone_to_slba, set_desc, change_zone_state, release_zone_resource,
}
use nvmevirt_fdp.Zns.Resources.{
  is_open, starts, restarts, finishes, HasRoom, Changed, Changed-same, changed,
}
use nvmevirt_fdp.Zns.Send.Transitions.{wp_then_full, moved_wp-Changed}
use nvmevirt_fdp.Zns.Send.Opening.{empty_room, acquired}
use nvmevirt_fdp.Zns.Io.{increase_write_ptr}
use nvmevirt_fdp.Zns.Write.{open_implicitly, enter_zone}

-- What the switch on the state leaves.
pub record Entered (f : ZnsFtl) (zid : ℕ) (r : ℕ × ZnsFtl) : Type 0 where
  pub change : Changed f zid r.1
  pub opened : r.0 ≡ nvme_sc_success → is_open (r.1.zone_descs zid).state ≡ true
  pub same_wp : (r.1.zone_descs zid).wp ≡ (f.zone_descs zid).wp
  pub same_zrwav : (r.1.zone_descs zid).zrwav ≡ (f.zone_descs zid).zrwav
  pub kept : r.0 ≢ nvme_sc_success → r.1 ≡ f

pub same_number : (n : ℕ) → (n == n) ≡ true
same_number n = ground arith

refused :
    (f : ZnsFtl) (zid status : ℕ)
    → HasRoom f zid
    → status ≢ nvme_sc_success
    → Entered f zid (status, f)
refused f zid status h n = record {
  change = Changed-same f zid h;
  opened = λ e. absurd (n e);
  same_wp = refl;
  same_zrwav = refl;
  kept = λ _. refl;
}

entered :
    (f g : ZnsFtl) (zid : ℕ)
    → Changed f zid g
    → g.zone_descs ≡ (λ i.
      if zid == i then (record (f.zone_descs zid) { state = opened_impl }) else f.zone_descs i)
    → Entered f zid (nvme_sc_success, g)
entered f g zid c d = record {
  change = c;
  opened = λ _. rw (d, same_number zid) refl;
  same_wp = rw (d, same_number zid) refl;
  same_zrwav = rw (d, same_number zid) refl;
  kept = λ n. absurd (n refl);
}

abbrev to_impl : ZnsFtl → ℕ → ZoneDesc
to_impl f zid = record (f.zone_descs zid) { state = opened_impl }

abbrev started : ZnsFtl → ℕ → ZnsFtl
started f zid =
    change_zone_state
      (record f { res_active = acquired f.res_active; res_open = acquired f.res_open }) zid
      opened_impl

abbrev restarted : ZnsFtl → ℕ → ZnsFtl
restarted f zid = change_zone_state (record f { res_open = acquired f.res_open }) zid opened_impl

pub enter_zone-at :
    (f : ZnsFtl) (zid slba : ℕ) (s : ZoneState)
    → (f.zone_descs zid).state ≡ s
    → HasRoom f zid
    → Entered f zid (enter_zone f zid slba)
unfolding enter_zone open_implicitly
enter_zone-at f zid slba zone_empty e h =
    rw (e, enter_zone)
      (let r = empty_room f zid e h in
        if-rule (Entered f zid) (not (slba == (f.zone_descs zid).zslba)) _ _
          (refused f zid _ h (ground arith))
          (rw (r.0, r.1, r.3, r.4)
            (entered f (started f zid) zid
              (changed f (started f zid) zid (to_impl f zid) (rw e starts) (λ x. cc) refl refl
                (ground arith))
              refl)))
enter_zone-at f zid slba closed e h =
    let r : ltb f.res_open.acquired_cnt f.res_open.total_cnt ≡ true = ground arith in
    rw (e, r, enter_zone)
      (entered f (restarted f zid) zid
        (changed f (restarted f zid) zid (to_impl f zid) (rw e restarts) (λ x. cc) refl refl
          (ground arith))
        refl)
enter_zone-at f zid slba opened_impl e h =
    rw (e, enter_zone)
      (record {
        change = Changed-same f zid h;
        opened = λ _. rw e refl;
        same_wp = refl;
        same_zrwav = refl;
        kept = λ n. refl;
      })
enter_zone-at f zid slba opened_expl e h =
    rw (e, enter_zone)
      (record {
        change = Changed-same f zid h;
        opened = λ _. rw e refl;
        same_wp = refl;
        same_zrwav = refl;
        kept = λ n. refl;
      })
enter_zone-at f zid slba _ e h = rw (e, enter_zone) (refused f zid _ h (ground arith))

abbrev filled : ZnsFtl → ℕ → ℕ → ZnsFtl
filled f zid wp =
    let g = set_desc f zid (record (f.zone_descs zid) { wp = wp }) in
    change_zone_state (release_zone_resource (release_zone_resource g open_zone) active_zone) zid
      full

filled-Changed :
    (f : ZnsFtl) (zid wp : ℕ) (s : ZoneState)
    → (f.zone_descs zid).state ≡ s
    → (f.zone_descs zid).zrwav ≡ false
    → is_open s ≡ true
    → HasRoom f zid
    → Changed f zid (filled f zid wp)
filled-Changed f zid wp opened_impl e b a h =
    changed f (filled f zid wp) zid (record (f.zone_descs zid) { wp = wp; state = full })
      (rw e (finishes refl)) (λ x. cc) (wp_then_full f.zone_descs zid wp) refl
      (rw (e, b) (ground arith))
filled-Changed f zid wp opened_expl e b a h =
    changed f (filled f zid wp) zid (record (f.zone_descs zid) { wp = wp; state = full })
      (rw e (finishes refl)) (λ x. cc) (wp_then_full f.zone_descs zid wp) refl
      (rw (e, b) (ground arith))
filled-Changed f zid wp _ e b a h = cc

-- The write pointer after `__increase_write_ptr`, and the change to an open zone with no ZRWA.
abbrev pub Moved : ZnsFtl → ℕ → ℕ → ZnsFtl → Type 0
Moved f zid wp g = Changed f zid g × ((g.zone_descs zid).wp ≡ wp)

pub increase-Moved :
    (f : ZnsFtl) (zid nr : ℕ)
    → (f.zone_descs zid).zrwav ≡ false
    → is_open (f.zone_descs zid).state ≡ true
    → HasRoom f zid
    → Moved f zid (u64 ((f.zone_descs zid).wp + u32 nr)) (increase_write_ptr f zid nr)
unfolding increase_write_ptr
increase-Moved f zid nr b a h =
    let wp = u64 ((f.zone_descs zid).wp + u32 nr) in
    if-rule (Moved f zid wp) (wp == u64 (zone_to_slba f zid + (f.zone_descs zid).zone_capacity)) _ _
      (filled-Changed f zid wp (f.zone_descs zid).state refl b a h, rw (same_number zid) refl)
      (moved_wp-Changed f zid wp (ground arith), rw (same_number zid) refl)
