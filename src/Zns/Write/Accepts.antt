-- ===== src/Zns/Write/Accepts.antt =====
-- zns_read_write.c: the checks of `__zns_write` and the move of the write pointer.
use nvmevirt_fdp.Prelude.{
  ℕ, ◌+◌, ◌%◌, ◌<◌, ◌≡◌, ◌≢◌, refl, ap, ◌∙◌, true, false, arith, ◌==◌, if◌then◌else◌, Bool-cases,
  inl, inr,
}
use nvmevirt_fdp.Ssd.Config.{u32, u64}
use nvmevirt_fdp.Fdp.Namespace.{nvme_sc_success}
use nvmevirt_fdp.Fdp.Namespace.Write.{lba_to_byte}
use nvmevirt_fdp.Zns.State.{ZoneState, ZnsFtl}
use nvmevirt_fdp.Zns.Resources.{
  Params, params, ◌⟶◌, stays, IsAccounted, IsAccounted-HasRoom, Changed, Changed-IsAccounted,
}
use nvmevirt_fdp.Zns.Io.{check_boundary_error, increase_write_ptr}
use nvmevirt_fdp.Zns.Write.Entry.{Entered, enter_zone-at, increase-Moved, same_number}
use nvmevirt_fdp.Zns.Write.{enter_zone, accept_write}

-- What the checks and the move of the write pointer leave, of a write of `nr` blocks at `slba`.
pub record Accepted (f : ZnsFtl) (zid slba nr : ℕ) (r : ℕ × ZnsFtl) : Type 0 where
  pub accounted : IsAccounted r.1
  pub through : ZoneState
  pub enters : (f.zone_descs zid).state ⟶ through
  pub leaves : through ⟶ (r.1.zone_descs zid).state
  pub others : (i : ℕ) → i ≢ zid → r.1.zone_descs i ≡ f.zone_descs i
  pub same_params : params r.1 ≡ params f
  pub moved :
      r.0 ≡ nvme_sc_success
      → (slba ≡ (f.zone_descs zid).wp)
        × (check_boundary_error f slba nr ≡ true)
        × ((r.1.zone_descs zid).wp ≡ u64 ((f.zone_descs zid).wp + u32 nr))
  pub kept : r.0 ≢ nvme_sc_success → r.1 ≡ f

rejected :
    (f : ZnsFtl) (zid slba nr status : ℕ)
    → IsAccounted f
    → status ≢ nvme_sc_success
    → Accepted f zid slba nr (status, f)
rejected f zid slba nr status v n = record {
  accounted = v;
  through = (f.zone_descs zid).state;
  enters = stays;
  leaves = stays;
  others = λ i m. refl;
  same_params = refl;
  moved = λ e. absurd (n e);
  kept = λ m. refl;
}

other_number : (i zid : ℕ) → i ≢ zid → (zid == i) ≡ false
other_number i zid n = ground arith

change_edge :
    (f g : ZnsFtl) (zid : ℕ) → Changed f zid g → (f.zone_descs zid).state ⟶ (g.zone_descs zid).state
change_edge f g zid c = rw (c.descs, same_number zid) c.edge

change_others :
    (f g : ZnsFtl) (zid i : ℕ) → Changed f zid g → i ≢ zid → g.zone_descs i ≡ f.zone_descs i
change_others f g zid i c n = rw (c.descs, other_number i zid n) refl

-- The last step, of a write whose checks succeeded.
accepted :
    (f g : ZnsFtl) (zid slba nr status : ℕ)
    → IsAccounted f
    → zid < f.zp.nr_zones
    → (f.zone_descs zid).zrwav ≡ false
    → check_boundary_error f slba nr ≡ true
    → slba ≡ (f.zone_descs zid).wp
    → Entered f zid (status, g)
    → Accepted f zid slba nr
        (if status == nvme_sc_success then (status, increase_write_ptr g zid nr) else (status, g))
accepted f g zid slba nr status v hz b c w n =
    let inside : zid < g.zp.nr_zones = rw (ap (λ (p : Params). p.1) n.change.same_params) hz in
    let vg = Changed-IsAccounted f g zid n.change v hz in
    elim (Bool-cases (status == nvme_sc_success)) [
      | inl e ↦
          let ok : status ≡ nvme_sc_success = ground arith in
          let m =
            increase-Moved g zid nr (n.same_zrwav ∙ b) (n.opened ok)
              (IsAccounted-HasRoom g zid vg inside) in
          rw e (record {
            accounted = Changed-IsAccounted g (increase_write_ptr g zid nr) zid m.0 vg inside;
            through = (g.zone_descs zid).state;
            enters = change_edge f g zid n.change;
            leaves = change_edge g (increase_write_ptr g zid nr) zid m.0;
            others = λ i ne.
                change_others g (increase_write_ptr g zid nr) zid i m.0 ne
                ∙ change_others f g zid i n.change ne;
            same_params = m.0.same_params ∙ n.change.same_params;
            moved = λ _. (w, c, m.1 ∙ ap (λ (p : ℕ). u64 (p + u32 nr)) n.same_wp);
            kept = λ k. absurd (k ok);
          })
      | inr e ↦
          let bad : status ≢ nvme_sc_success = ground arith in
          rw e (record {
            accounted = vg;
            through = (g.zone_descs zid).state;
            enters = change_edge f g zid n.change;
            leaves = stays;
            others = λ i ne. change_others f g zid i n.change ne;
            same_params = n.change.same_params;
            moved = λ k. absurd (bad k);
            kept = n.kept;
          })
    ]

-- On a state whose resource counts are those of its zones, the checks of a write to an existing
-- zone with no ZRWA either fail and leave the state as it was, or the write begins at the write
-- pointer, stays in its zone, and moves the write pointer by its blocks (as 32-bit and 64-bit
-- numbers wrap). The zone makes two transitions at most, no other zone changes, and the counts are
-- again those of the zones.
pub accept_write-Accepted :
    (f : ZnsFtl) (zid slba nr : ℕ)
    → IsAccounted f
    → zid < f.zp.nr_zones
    → (f.zone_descs zid).zrwav ≡ false
    → Accepted f zid slba nr (accept_write f zid slba nr)
unfolding accept_write
accept_write-Accepted f zid slba nr v h b =
    elim (Bool-cases (lba_to_byte nr % f.sp.write_unit_size == 0)) [
      | inr e ↦ rw e (rejected f zid slba nr _ v (ground arith))
      | inl e ↦ elim (Bool-cases (check_boundary_error f slba nr)) [
        | inr e1 ↦ rw (e, e1) (rejected f zid slba nr _ v (ground arith))
        | inl e1 ↦ elim (Bool-cases (slba == (f.zone_descs zid).wp)) [
          | inr e2 ↦ rw (e, e1, e2) (rejected f zid slba nr _ v (ground arith))
          | inl e2 ↦
              rw (e, e1, e2)
                (accepted f (enter_zone f zid slba).1 zid slba nr (enter_zone f zid slba).0 v h b e1
                  (ground arith)
                  (enter_zone-at f zid slba (f.zone_descs zid).state refl
                    (IsAccounted-HasRoom f zid v h)))
        ]
      ]
    ]
