-- ===== src/Zns/Send/Keeps.antt =====
-- zns_mgmt_send.c: whole commands, on a state whose counts are those of its zones.
use nvmevirt_fdp.Prelude.{
  ℕ, ◌%◌, ◌<◌, ◌≡◌, ◌≢◌, refl, sym, ap, ◌∙◌, Bool-cases, inl, inr, Bool, true, false, not, arith,
  leb, ◌==◌, ◌>>=◌, some, Returns, returns, digit_bound, of_digits, ◌+◌, ◌*◌, ◌^◌, ◌≤◌, ◌/◌, subst,
  Returns-if, if-rule, ◌&&◌, Returns-assert, Returns-bind, Returns-map, for_range,
  for_range-Returns,
}
use nvmevirt_fdp.Ssd.Config.{u32}
use nvmevirt_fdp.Zns.State.{
  zone_lbas, ZoneState, opened_impl, opened_expl, closed, ZnsFtl, lba_to_zone, zone_to_slba,
}
use nvmevirt_fdp.Zns.Send.{
  flush_zone, zrwa_end, flushed_lbas, flush_explicit_zrwa, SendAction, zsa_close, zsa_finish,
  zsa_open, zsa_reset, zsa_offline, zsa_flush_expl_zrwa, zsa_other, zmgmt_send, send_all,
}
use nvmevirt_fdp.Zns.Resources.{
  Params, params, ◌⟶◌, HasRoom, IsAccounted, IsAccounted-HasRoom, Changed, Changed-same,
  Changed-IsAccounted,
}
use nvmevirt_fdp.Zns.Send.Transitions.{
  close_zone-at, finish_zone-at, reset_zone-at, offline_zone-at, commit-Changed,
}
use nvmevirt_fdp.Zns.Send.Opening.{open_zone-at}

-- What a command does to a zone: a transition, with nothing else in reach changed.
pub record Managed (f : ZnsFtl) (zid : ℕ) (g : ZnsFtl) : Type 0 where
  pub accounted : IsAccounted g
  pub edge : (f.zone_descs zid).state ⟶ (g.zone_descs zid).state
  pub others : (i : ℕ) → i ≢ zid → g.zone_descs i ≡ f.zone_descs i
  pub same_params : params g ≡ params f

same_number : (n : ℕ) → (n == n) ≡ true
same_number n = ground arith

other_number : (i zid : ℕ) → i ≢ zid → (zid == i) ≡ false
other_number i zid n = ground arith

pub Changed-Managed :
    (f g : ZnsFtl) (zid : ℕ)
    → IsAccounted f
    → zid < f.zp.nr_zones
    → Changed f zid g
    → Managed f zid g
Changed-Managed f g zid v h c = record {
  accounted = Changed-IsAccounted f g zid c v h;
  edge = rw (c.descs, same_number zid) c.edge;
  others = λ i n. rw (c.descs, other_number i zid n) refl;
  same_params = c.same_params;
}

flush_zone-at :
    (f : ZnsFtl) (zid slba : ℕ) (s : ZoneState)
    → (f.zone_descs zid).state ≡ s
    → (f.zone_descs zid).zrwav ≡ true
    → HasRoom f zid
    → Changed f zid (flush_zone f zid slba).1
unfolding flush_zone
flush_zone-at f zid slba opened_expl e b h =
    rw (e, flush_zone) (commit-Changed f zid slba opened_expl e b refl h)
flush_zone-at f zid slba opened_impl e b h =
    rw (e, flush_zone) (commit-Changed f zid slba opened_impl e b refl h)
flush_zone-at f zid slba closed e b h =
    rw (e, flush_zone) (commit-Changed f zid slba closed e b refl h)
flush_zone-at f zid slba _ e b h = rw (e, flush_zone) (Changed-same f zid h)

flush-Changed :
    (f : ZnsFtl) (slba : ℕ)
    → ((f.zone_descs (lba_to_zone f slba)).zrwav ≡ true → 0 < f.zp.lbas_per_zrwafg)
    → HasRoom f (lba_to_zone f slba)
    → Returns (λ r. Changed f (lba_to_zone f slba) r.1) (flush_explicit_zrwa f slba)
unfolding flush_explicit_zrwa
flush-Changed f slba p h =
    let zid = lba_to_zone f slba in
    let same = Changed-same f zid h in
    let d = f.zone_descs zid in
    Returns-if (not d.zrwav) (λ _. returns same)
      (λ e.
        Returns-if (not (leb d.wp slba && leb slba (zrwa_end f zid))) (λ _. returns same)
          (λ _.
            Returns-assert {b = not (f.zp.lbas_per_zrwafg == 0)} (ground (arith, p (ground arith)))
              (returns (
                if-rule {A = ℕ × ZnsFtl} (λ r. Changed f zid r.1)
                  (not (flushed_lbas d slba % f.zp.lbas_per_zrwafg == 0)) _ _ same
                  (flush_zone-at f zid slba d.state refl (ground arith) h)))))

-- On a state whose resource counts are those of its zones, a zone management command to an
-- existing zone completes for every action, if for the explicit flush of a zone with a ZRWA the flush
-- groups are not empty (ZRWAFG_SIZE is 0 in both ZNS configurations): its zone stays
-- or makes one transition of the state machine, no other zone changes, and the counts are again
-- those of the zones.
pub zmgmt_send-Managed :
    (unset : ℕ) (f : ZnsFtl) (slba : ℕ) (action : SendAction) (option : Bool)
    → IsAccounted f
    → lba_to_zone f slba < f.zp.nr_zones
    → (action ≡ zsa_flush_expl_zrwa
        → (f.zone_descs (lba_to_zone f slba)).zrwav ≡ true
        → 0 < f.zp.lbas_per_zrwafg)
    → Returns (λ r. Managed f (lba_to_zone f slba) r.1) (zmgmt_send unset f slba action option)
unfolding zmgmt_send
zmgmt_send-Managed unset f slba action option v h p =
    let room = IsAccounted-HasRoom f (lba_to_zone f slba) v h in
    Returns-map (sent action p room) (λ r c. Changed-Managed f r.1 (lba_to_zone f slba) v h c)
  where
    zid : ℕ
    zid = lba_to_zone f slba

    sent :
        (action : SendAction)
        → (action ≡ zsa_flush_expl_zrwa
            → (f.zone_descs (lba_to_zone f slba)).zrwav ≡ true
            → 0 < f.zp.lbas_per_zrwafg)
        → HasRoom f (lba_to_zone f slba)
        → Returns (λ r. Changed f (lba_to_zone f slba) r.1) (zmgmt_send unset f slba action option)
    sent zsa_close _ r = returns (close_zone-at f zid (f.zone_descs zid).state refl r)
    sent zsa_finish _ r =
        returns (finish_zone-at f zid (f.zone_descs zid).state (f.zone_descs zid).zrwav refl refl r)
    sent zsa_open _ r = returns (open_zone-at f zid option (f.zone_descs zid).state refl r)
    sent zsa_reset _ r =
        returns (reset_zone-at f zid (f.zone_descs zid).state (f.zone_descs zid).zrwav refl refl r)
    sent zsa_offline _ r = returns (offline_zone-at f zid (f.zone_descs zid).state refl r)
    sent zsa_flush_expl_zrwa q r = flush-Changed f slba (q refl) r
    sent zsa_other _ r = returns (Changed-same f zid r)

-- The zones have blocks, and their LBAs are numbers of 32 bits.
pub record IsLaidOut (f : ZnsFtl) : Type 0 where
  pub lbas : 0 < zone_lbas f
  pub lbas_fit : f.zp.nr_zones * zone_lbas f ≤ 2 ^ 32

pub lba_to_zone-zone_to_slba :
    (f : ZnsFtl) (zid : ℕ)
    → IsLaidOut f
    → zid < f.zp.nr_zones
    → lba_to_zone f (zone_to_slba f zid) ≡ zid
lba_to_zone-zone_to_slba f zid l h =
    let fits : zid * zone_lbas f < 2 ^ 32 =
      omega (arith, l.lbas_fit, digit_bound (zone_lbas f) f.zp.nr_zones zid 0 h l.lbas) in
    let slba : u32 (zid * zone_lbas f) ≡ zid * zone_lbas f + 0 = omega arith in
    let zone : (zid * zone_lbas f + 0) / zone_lbas f ≡ zid =
      (of_digits (zone_lbas f) zid 0 l.lbas).0 in
    rw (slba, zone) (omega arith)

-- A command to all zones: each zone makes a transition of its own.
pub record ManagedAll (f : ZnsFtl) (done : ℕ) (g : ZnsFtl) : Type 0 where
  pub accounted : IsAccounted g
  pub edges : (i : ℕ) → i < done → (f.zone_descs i).state ⟶ (g.zone_descs i).state
  pub others : (i : ℕ) → done ≤ i → g.zone_descs i ≡ f.zone_descs i
  pub same_params : params g ≡ params f

next_zone :
    (f g h : ZnsFtl) (zid : ℕ) → ManagedAll f zid g → Managed g zid h → ManagedAll f (zid + 1) h
next_zone f g h zid a m = record {
  accounted = m.accounted;
  edges = λ i hi. elim (Bool-cases (i == zid)) [
    | inl e ↦
        let same : zid ≡ i = ground arith in
        subst (λ j. (f.zone_descs j).state ⟶ (h.zone_descs j).state) same
          (subst (λ d. d.state ⟶ (h.zone_descs zid).state) (a.others zid (omega arith)) m.edge)
    | inr e ↦
        subst (λ d. (f.zone_descs i).state ⟶ d.state) (sym (m.others i (ground arith)))
          (a.edges i (ground arith))
  ];
  others = λ i hi. m.others i (ground arith) ∙ a.others i (omega arith);
  same_params = m.same_params ∙ a.same_params;
}

-- The layout is that of the parameters.
laid_out : (f g : ZnsFtl) → params g ≡ params f → IsLaidOut f → IsLaidOut g
laid_out f g e l = record {
  lbas = rw (ap (λ (p : Params). p.0) e, ap (λ (p : Params). p.1) e) l.lbas;
  lbas_fit = rw (ap (λ (p : Params). p.0) e, ap (λ (p : Params). p.1) e) l.lbas_fit;
}

-- A zone management command to all zones, on a state whose resource counts are those of its zones and
-- whose blocks are numbers of 32 bits, completes for every action (the explicit flush, if a zone has a
-- ZRWA, where the flush groups are not empty): each zone stays or makes one transition of the
-- state machine, and the counts are again those of the zones.
pub send_all-ManagedAll :
    (unset : ℕ) (f : ZnsFtl) (action : SendAction) (option : Bool)
    → IsAccounted f
    → IsLaidOut f
    → (action ≡ zsa_flush_expl_zrwa
        → (i : ℕ) → i < f.zp.nr_zones
        → (f.zone_descs i).zrwav ≡ true
        → 0 < f.zp.lbas_per_zrwafg)
    → Returns (ManagedAll f f.zp.nr_zones) (send_all unset f action option)
unfolding send_all for_range
send_all-ManagedAll unset f action option v l q =
    for_range-Returns (ManagedAll f)
      (λ zid g. zmgmt_send unset g (zone_to_slba g zid) action option >>= λ r. some r.1)
      f.zp.nr_zones keep f.zp.nr_zones 0 f (omega arith)
      (record {
        accounted = v;
        edges = λ i h. absurd (omega arith);
        others = λ i h. refl;
        same_params = refl;
      })
  where
    keep :
        (zid : ℕ) (g : ZnsFtl)
        → zid < f.zp.nr_zones
        → ManagedAll f zid g
        → Returns
            (ManagedAll f (zid + 1))
            (zmgmt_send unset g (zone_to_slba g zid) action option >>= λ r. some r.1)
    keep zid g h a =
        let lg = laid_out f g a.same_params l in
        let inside : zid < g.zp.nr_zones = rw (ap (λ (p : Params). p.1) a.same_params) h in
        let zone = lba_to_zone-zone_to_slba g zid lg inside in
        Returns-bind
          (zmgmt_send-Managed unset g (zone_to_slba g zid) action option a.accounted
            (rw zone inside)
            (λ e z.
              subst (λ (n : ℕ). 0 < n)
                (sym (ap (λ (p : Params). p.1.lbas_per_zrwafg) a.same_params))
                (q e zid h
                  (subst (λ d. d.zrwav ≡ true) (a.others zid (omega arith)) (rw zone at z)))))
          λ r m. returns (next_zone f g r.1 zid a (subst (λ i. Managed g i r.1) zone m))
