-- ===== src/Zns/Send/Transitions.antt =====
-- zns_mgmt_send.c: what each operation does to its zone and to the counts of resources.
use nvmevirt_fdp.Prelude.{
  ℕ, ◌+◌, ◌≡◌, refl, ap, ◌∙◌, fun_ext, Bool-cases, inl, inr, ◌==◌, if◌then◌else◌, if-rule, Bool,
  true, false, arith,
}
use nvmevirt_fdp.Ssd.Config.{u64}
use nvmevirt_fdp.Zns.State.{
  ZoneState, zone_empty, opened_impl, opened_expl, closed, read_only, full, offline, ZoneDesc,
  ZnsFtl, active_zone, open_zone, zrwa_zone, set_desc, zone_to_slba, change_zone_state,
  release_zone_resource,
}
use nvmevirt_fdp.Zns.Send.{
  close_zone, finish_zone, reset_zone, reset_storage, offline_zone, commit_zrwa,
}
use nvmevirt_fdp.Zns.Resources.{
  params, is_active, is_open, Balanced, ◌⟶◌, stays, closes, finishes, skips, resets, erases,
  retires, HasRoom, Changed, Changed-same, changed,
}

pub close_zone-at :
    (f : ZnsFtl) (zid : ℕ) (s : ZoneState)
    → (f.zone_descs zid).state ≡ s
    → HasRoom f zid
    → Changed f zid (close_zone f zid).1
unfolding close_zone
close_zone-at f zid opened_impl e h =
    rw (e, close_zone)
      (changed f _ zid (record (f.zone_descs zid) { state = closed }) (rw e (closes refl)) (λ x. cc)
        refl refl (ground arith))
close_zone-at f zid opened_expl e h =
    rw (e, close_zone)
      (changed f _ zid (record (f.zone_descs zid) { state = closed }) (rw e (closes refl)) (λ x. cc)
        refl refl (ground arith))
close_zone-at f zid _ e h = rw (e, close_zone) (Changed-same f zid h)

abbrev to_full : ZnsFtl → ℕ → ZoneDesc
to_full f zid = record (f.zone_descs zid) { state = full }

pub finish_zone-at :
    (f : ZnsFtl) (zid : ℕ) (s : ZoneState) (b : Bool)
    → (f.zone_descs zid).state ≡ s
    → (f.zone_descs zid).zrwav ≡ b
    → HasRoom f zid
    → Changed f zid (finish_zone f zid).1
unfolding finish_zone
finish_zone-at f zid opened_impl true e b h =
    rw (e, b, finish_zone)
      (changed f _ zid (to_full f zid) (rw e (finishes refl)) (λ x. cc) refl refl (ground arith))
finish_zone-at f zid opened_impl false e b h =
    rw (e, b, finish_zone)
      (changed f _ zid (to_full f zid) (rw e (finishes refl)) (λ x. cc) refl refl (ground arith))
finish_zone-at f zid opened_expl true e b h =
    rw (e, b, finish_zone)
      (changed f _ zid (to_full f zid) (rw e (finishes refl)) (λ x. cc) refl refl (ground arith))
finish_zone-at f zid opened_expl false e b h =
    rw (e, b, finish_zone)
      (changed f _ zid (to_full f zid) (rw e (finishes refl)) (λ x. cc) refl refl (ground arith))
finish_zone-at f zid closed true e b h =
    rw (e, b, finish_zone)
      (changed f _ zid (to_full f zid) (rw e (finishes refl)) (λ x. cc) refl refl (ground arith))
finish_zone-at f zid closed false e b h =
    rw (e, b, finish_zone)
      (changed f _ zid (to_full f zid) (rw e (finishes refl)) (λ x. cc) refl refl (ground arith))
finish_zone-at f zid zone_empty _ e b h =
    rw (e, finish_zone)
      (changed f _ zid (to_full f zid) (rw e skips) (λ x. cc) refl refl (ground arith))
finish_zone-at f zid _ _ e b h = rw (e, finish_zone) (Changed-same f zid h)

abbrev to_empty : ZnsFtl → ℕ → ZoneDesc
to_empty f zid =
    let d = f.zone_descs zid in record d { state = zone_empty; zrwav = false; wp = d.zslba }

pub same_number : (n : ℕ) → (n == n) ≡ true
same_number n = ground arith

reset_storage-descs :
    (g : ZnsFtl) (zid : ℕ)
    → (reset_storage (change_zone_state g zid zone_empty) zid).zone_descs
      ≡ (λ i. if zid == i then to_empty g zid else g.zone_descs i)
unfolding reset_storage
reset_storage-descs g zid =
    fun_ext λ i. elim (Bool-cases (zid == i)) [ inl e ↦ rw (e, same_number zid) | inr e ↦ rw e ]

-- What an active zone gives back.
abbrev given_back : ZnsFtl → Bool → Bool → ZnsFtl
given_back f is_open zrwav =
    let g = (if is_open then release_zone_resource f open_zone else f) in
    let h = release_zone_resource g active_zone in
    if zrwav then release_zone_resource h zrwa_zone else h

reset-from :
    (f g : ZnsFtl) (zid : ℕ)
    → (f.zone_descs zid).state ⟶ zone_empty
    → g.zone_descs ≡ f.zone_descs
    → params g ≡ params f
    → Balanced f zid g (to_empty f zid)
    → Changed f zid (reset_storage (change_zone_state g zid zone_empty) zid)
unfolding reset_storage
reset-from f g zid e ds z b =
    changed f (reset_storage (change_zone_state g zid zone_empty) zid) zid (to_empty f zid) e
      (λ x. (refl, refl))
      (reset_storage-descs g zid
        ∙ ap
            (λ (t : ℕ → ZoneDesc). λ i.
              if zid == i
              then (record (t zid) { state = zone_empty; zrwav = false; wp = (t zid).zslba })
              else t i)
            ds)
      z b

pub reset_zone-at :
    (f : ZnsFtl) (zid : ℕ) (s : ZoneState) (b : Bool)
    → (f.zone_descs zid).state ≡ s
    → (f.zone_descs zid).zrwav ≡ b
    → HasRoom f zid
    → Changed f zid (reset_zone f zid).1
unfolding reset_zone
reset_zone-at f zid opened_impl true e b h =
    rw (e, b, reset_zone)
      (reset-from f (given_back f true true) zid (rw e (resets refl)) refl refl (ground arith))
reset_zone-at f zid opened_impl false e b h =
    rw (e, b, reset_zone)
      (reset-from f (given_back f true false) zid (rw e (resets refl)) refl refl (ground arith))
reset_zone-at f zid opened_expl true e b h =
    rw (e, b, reset_zone)
      (reset-from f (given_back f true true) zid (rw e (resets refl)) refl refl (ground arith))
reset_zone-at f zid opened_expl false e b h =
    rw (e, b, reset_zone)
      (reset-from f (given_back f true false) zid (rw e (resets refl)) refl refl (ground arith))
reset_zone-at f zid closed true e b h =
    rw (e, b, reset_zone)
      (reset-from f (given_back f false true) zid (rw e (resets refl)) refl refl (ground arith))
reset_zone-at f zid closed false e b h =
    rw (e, b, reset_zone)
      (reset-from f (given_back f false false) zid (rw e (resets refl)) refl refl (ground arith))
reset_zone-at f zid full _ e b h =
    rw (e, reset_zone) (reset-from f f zid (rw e erases) refl refl (ground arith))
reset_zone-at f zid zone_empty _ e b h =
    rw (e, reset_zone) (reset-from f f zid (rw e stays) refl refl (ground arith))
reset_zone-at f zid _ _ e b h = rw (e, reset_zone) (Changed-same f zid h)

pub offline_zone-at :
    (f : ZnsFtl) (zid : ℕ) (s : ZoneState)
    → (f.zone_descs zid).state ≡ s
    → HasRoom f zid
    → Changed f zid (offline_zone f zid).1
unfolding offline_zone
offline_zone-at f zid read_only e h =
    rw (e, offline_zone)
      (changed f _ zid (record (f.zone_descs zid) { state = offline }) (rw e retires) (λ x. cc) refl
        refl (ground arith))
offline_zone-at f zid _ e h = rw (e, offline_zone) (Changed-same f zid h)

-- The write pointer and the state are set one after the other.
pub wp_then_full :
    (ds : ℕ → ZoneDesc) (zid wp : ℕ)
    → ◌≡◌ {A = ℕ → ZoneDesc}
        (λ i.
          if zid == i
          then (record (if zid == zid then record (ds zid) { wp = wp } else ds zid) {
            state = full;
          })
          else if zid == i
          then record (ds zid) { wp = wp }
          else ds i)
        (λ i. if zid == i then record (ds zid) { wp = wp; state = full } else ds i)
wp_then_full ds zid wp =
    fun_ext λ i. elim (Bool-cases (zid == i)) [ inl e ↦ rw (e, same_number zid) | inr e ↦ rw e ]

-- A zone with a ZRWA, written to its end.
abbrev committed_full : ZnsFtl → ℕ → ℕ → Bool → ZnsFtl
committed_full f zid wp is_open =
    let g = set_desc f zid (record (f.zone_descs zid) { wp = wp }) in
    let h = (if is_open then release_zone_resource g open_zone else g) in
    change_zone_state (release_zone_resource (release_zone_resource h active_zone) zrwa_zone) zid
      full

committed_full-Changed :
    (f : ZnsFtl) (zid wp : ℕ) (s : ZoneState)
    → (f.zone_descs zid).state ≡ s
    → (f.zone_descs zid).zrwav ≡ true
    → is_active s ≡ true
    → HasRoom f zid
    → Changed f zid (committed_full f zid wp (is_open s))
committed_full-Changed f zid wp opened_impl e b a h =
    changed f (committed_full f zid wp true) zid
      (record (f.zone_descs zid) { wp = wp; state = full }) (rw e (finishes refl)) (λ x. cc)
      (wp_then_full f.zone_descs zid wp) refl (rw (e, b) (ground arith))
committed_full-Changed f zid wp opened_expl e b a h =
    changed f (committed_full f zid wp true) zid
      (record (f.zone_descs zid) { wp = wp; state = full }) (rw e (finishes refl)) (λ x. cc)
      (wp_then_full f.zone_descs zid wp) refl (rw (e, b) (ground arith))
committed_full-Changed f zid wp closed e b a h =
    changed f (committed_full f zid wp false) zid
      (record (f.zone_descs zid) { wp = wp; state = full }) (rw e (finishes refl)) (λ x. cc)
      (wp_then_full f.zone_descs zid wp) refl (rw (e, b) (ground arith))
committed_full-Changed f zid wp _ e b a h = cc

-- A write pointer moves in an active zone.
pub moved_wp-Changed :
    (f : ZnsFtl) (zid wp : ℕ)
    → is_active (f.zone_descs zid).state ≡ true
    → Changed f zid (set_desc f zid (record (f.zone_descs zid) { wp = wp }))
moved_wp-Changed f zid wp a =
    changed f _ zid (record (f.zone_descs zid) { wp = wp }) stays (λ x. absurd (ground arith)) refl
      refl (refl, refl, refl, refl, refl, refl)

pub commit-Changed :
    (f : ZnsFtl) (zid slba : ℕ) (s : ZoneState)
    → (f.zone_descs zid).state ≡ s
    → (f.zone_descs zid).zrwav ≡ true
    → is_active s ≡ true
    → HasRoom f zid
    → Changed f zid (commit_zrwa f zid slba (is_open s)).1
unfolding commit_zrwa
commit-Changed f zid slba s e b a h =
    if-rule (Changed f zid)
      (u64 (slba + 1) == u64 (zone_to_slba f zid + (f.zone_descs zid).zone_capacity)) _ _
      (committed_full-Changed f zid (u64 (slba + 1)) s e b a h)
      (moved_wp-Changed f zid (u64 (slba + 1)) (rw e a))
