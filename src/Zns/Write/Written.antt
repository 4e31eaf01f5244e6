-- ===== src/Zns/Write/Written.antt =====
-- zns_read_write.c: `__zns_write` as a whole.
use nvmevirt_fdp.Prelude.{
  ℕ, ◌+◌, ◌^◌, ◌≤◌, ◌<◌, ◌≡◌, ◌≢◌, refl, sym, ap, ◌∙◌, subst, true, false, not, arith, ltb, leb,
  ◌==◌, if◌then◌else◌, if-rule, Returns, returns, Returns-bind, Returns-map, Returns-if,
  Returns-assert,
}
use nvmevirt_fdp.Ssd.Config.{u32, u64}
use nvmevirt_fdp.Ssd.Buffer.{Buffer, buffer_allocate}
use nvmevirt_fdp.Ssd.Nand.Laws.{IsTime}
use nvmevirt_fdp.Fdp.Namespace.{NvmevRequest, nvme_sc_success}
use nvmevirt_fdp.Fdp.Namespace.Write.{lba_to_byte, nr_lba}
use nvmevirt_fdp.Zns.State.{ZoneState, ZoneDesc, ZnsFtl, lba_to_zone}
use nvmevirt_fdp.Zns.Resources.{Params, params, ◌⟶◌, IsAccounted}
use nvmevirt_fdp.Zns.Io.{ZnsResult, ZnsReply}
use nvmevirt_fdp.Zns.Write.{
  accept_write, write_zone, write_slba, write_result, get_buffer, set_buffer, zns_write_at_wp,
}
use nvmevirt_fdp.Zns.Write.Accepts.{Accepted, accept_write-Accepted}
use nvmevirt_fdp.Zns.Write.Total.{SameZones, IsWritable, write_data-IsProgramming}

-- What a write that was taken leaves: an error changes no zone, a success moves the write pointer of its
-- zone by the blocks written, which began there.
pub record Wrote (f : ZnsFtl) (req : NvmevRequest) (zid slba : ℕ) (r : ZnsReply) : Type 0 where
  pub accounted : IsAccounted r.ftl
  pub time : IsTime r.ftl.time
  pub through : ZoneState
  pub enters : (f.zone_descs zid).state ⟶ through
  pub leaves : through ⟶ (r.ftl.zone_descs zid).state
  pub others : (i : ℕ) → i ≢ zid → r.ftl.zone_descs i ≡ f.zone_descs i
  pub moved :
      r.ret.status ≡ nvme_sc_success
      → (slba ≡ (f.zone_descs zid).wp)
        × ((r.ftl.zone_descs zid).wp ≡ u64 ((f.zone_descs zid).wp + u32 (nr_lba req.cmd)))
  pub failed : r.ret.status ≢ nvme_sc_success → r.ftl.zone_descs ≡ f.zone_descs

retimed : (f g : ZnsFtl) → SameZones f g → IsAccounted f → IsAccounted g
retimed f g e v =
    subst IsAccounted (sym e)
      (record { counts = v.counts; totals = v.totals; fits = v.fits; plain = v.plain })

same_descs : (f g : ZnsFtl) → SameZones f g → g.zone_descs ≡ f.zone_descs
same_descs f g e = ap (λ (x : ZnsFtl). x.zone_descs) e

-- The state when the data is on its way.
wrote :
    (f g h : ZnsFtl) (req : NvmevRequest) (zid slba status target result : ℕ)
    → Accepted f zid slba (nr_lba req.cmd) (status, g)
    → SameZones g h
    → IsTime h.time
    → Wrote f req zid slba (record {
      taken = true;
      slba = slba;
      ret = record { status = status; nsecs_target = target; result = result };
      ftl = h;
    })
wrote f g h req zid slba status target result a e t = record {
  accounted = retimed g h e a.accounted;
  time = t;
  through = a.through;
  enters = a.enters;
  leaves = rw (same_descs g h e) a.leaves;
  others = λ i n. rw (same_descs g h e) (a.others i n);
  moved = λ s. rw (same_descs g h e) ((a.moved s).0, (a.moved s).2);
  failed = λ s. same_descs g h e ∙ ap (λ (x : ZnsFtl). x.zone_descs) (a.kept s);
}

-- The reply keeps what it was given.
abbrev pub Replied : ZnsFtl → NvmevRequest → ℕ → ℕ → ℕ → ZnsReply → Type 0
Replied f req zid slba result r =
    Wrote f req zid slba r × (r.taken ≡ true) × (r.slba ≡ slba) × (r.ret.result ≡ result)

writable : (f g : ZnsFtl) → params g ≡ params f → IsWritable f → IsWritable g
writable f g e w = record {
  timing = rw (ap (λ (p : Params). p.0) e) w.timing;
  oneshot = rw (ap (λ (p : Params). p.0) e) w.oneshot;
  oneshot_fits = rw (ap (λ (p : Params). p.0) e) w.oneshot_fits;
  time = rw (ap (λ (p : Params). p.2) e) w.time;
}

write_zone-Replied :
    (f : ZnsFtl) (req : NvmevRequest) (zid slba result : ℕ)
    → IsAccounted f
    → IsWritable f
    → zid < f.zp.nr_zones
    → (f.zone_descs zid).zrwav ≡ false
    → Returns (Replied f req zid slba result) (write_zone f req zid slba result)
unfolding write_zone
write_zone-Replied f req zid slba result v w h b =
    let status = (accept_write f zid slba (nr_lba req.cmd)).0 in
    let g = (accept_write f zid slba (nr_lba req.cmd)).1 in
    let a = accept_write-Accepted f zid slba (nr_lba req.cmd) v h b in
    let wg = writable f g a.same_params w in
    Returns-if (status == nvme_sc_success)
      (λ _. Returns-bind (write_data-IsProgramming g req zid slba wg) λ r p.
        returns (wrote f g r.1.ftl req zid slba status _ result a p.same p.time, refl, refl, refl))
      (λ _. returns (wrote f g g req zid slba status _ result a refl wg.time, refl, refl, refl))

-- The reply to a write: it is taken if the buffer has room for it.
pub record Written (f : ZnsFtl) (req : NvmevRequest) (ret : ZnsResult) (zid : ℕ) (r : ZnsReply)
    : Type 0 where
  pub taken : r.taken ≡ leb (lba_to_byte (nr_lba req.cmd)) (get_buffer f zid).remaining
  pub wrote : r.taken ≡ true → Wrote f req zid (write_slba f req zid) r
  pub retried : r.taken ≡ false → r.ftl.zone_descs ≡ f.zone_descs
  pub slba : r.slba ≡ write_slba f req zid
  pub reported : r.ret.result ≡ write_result f req zid ret

-- Only write buffers differ.
abbrev SameButBuffers : ZnsFtl → ZnsFtl → Type 0
SameButBuffers f g =
    g ≡ record f { zone_write_buffer = g.zone_write_buffer; write_buffer = g.write_buffer }

set_buffer-same : (f : ZnsFtl) (zid : ℕ) (b : Buffer) → SameButBuffers f (set_buffer f zid b)
set_buffer-same f zid b =
    if-rule {A = ZnsFtl} (SameButBuffers f) (not (f.zp.zone_wb_size == 0)) _ _ refl refl

module _ (f g : ZnsFtl) (e : SameButBuffers f g) where
  rebuffered : IsAccounted f → IsAccounted g
  rebuffered v =
      subst IsAccounted (sym e)
        (record { counts = v.counts; totals = v.totals; fits = v.fits; plain = v.plain })

  buffer_descs : g.zone_descs ≡ f.zone_descs
  buffer_descs = ap (λ (x : ZnsFtl). x.zone_descs) e

  buffer_params : params g ≡ params f
  buffer_params = ap params e

  with_buffer :
      (req : NvmevRequest) (zid slba : ℕ) (r : ZnsReply)
      → Wrote g req zid slba r
      → Wrote f req zid slba r
  with_buffer req zid slba r w = record {
    accounted = w.accounted;
    time = w.time;
    through = w.through;
    enters = subst (λ (d : ℕ → ZoneDesc). (d zid).state ⟶ w.through) buffer_descs w.enters;
    leaves = w.leaves;
    others = λ i n. w.others i n ∙ ap (λ (d : ℕ → ZoneDesc). d i) buffer_descs;
    moved = λ s.
        subst
          (λ (d : ℕ → ZoneDesc).
            (slba ≡ (d zid).wp)
            × ((r.ftl.zone_descs zid).wp ≡ u64 ((d zid).wp + u32 (nr_lba req.cmd))))
          buffer_descs (w.moved s);
    failed = λ s. w.failed s ∙ buffer_descs;
  }

granted_lem :
    (b : Buffer) (size : ℕ)
    → size < 2 ^ 32
    → size ≤ b.size
    → Returns (λ r. r.0 ≡ (if ltb b.remaining size then 0 else size)) (buffer_allocate b size)
unfolding buffer_allocate
granted_lem b size fits h =
    Returns-assert {b = leb size b.size} (ground arith) (returns (ground arith))

-- A write or append to an existing zone with no ZRWA, of a device with valid time models whose
-- write buffer is large enough for it, completes. It is taken exactly if the buffer has room; if
-- not, no zone changes. An append reports and begins at the write pointer. A write that is taken
-- and succeeds moves the write pointer of its zone by its blocks; one that fails changes no zone;
-- the resource counts stay those of the zones and the time models valid.
pub zns_write_at_wp-Written :
    (f : ZnsFtl) (req : NvmevRequest) (ret : ZnsResult)
    → IsAccounted f
    → IsWritable f
    → lba_to_zone f req.cmd.slba < f.zp.nr_zones
    → (f.zone_descs (lba_to_zone f req.cmd.slba)).zrwav ≡ false
    → req.cmd.length < 2 ^ 16
    → lba_to_byte (nr_lba req.cmd) ≤ (get_buffer f (lba_to_zone f req.cmd.slba)).size
    → Returns (Written f req ret (lba_to_zone f req.cmd.slba)) (zns_write_at_wp f req ret)
unfolding zns_write_at_wp
zns_write_at_wp-Written f req ret v w h b n s =
    let zid = lba_to_zone f req.cmd.slba in
    let bytes = lba_to_byte (nr_lba req.cmd) in
    let slba = write_slba f req zid in
    let result = write_result f req zid ret in
    Returns-bind (granted_lem (get_buffer f zid) bytes (omega arith) s) λ r p.
      let g = set_buffer f zid r.1 in
      let e = set_buffer-same f zid r.1 in
      let same = buffer_descs f g e in
      Returns-if (ltb r.0 bytes)
        (λ x.
          returns
            {a = record {
              taken = false;
              slba = slba;
              ret = record ret { result = result };
              ftl = g;
            }}
            (record {
              taken = ground arith;
              wrote = λ y. absurd (cc y);
              retried = λ _. same;
              slba = refl;
              reported = refl;
            }))
        (λ x.
          Returns-map
            (write_zone-Replied g req zid slba result (rebuffered f g e v)
              (writable f g (buffer_params f g e) w)
              (subst (λ (q : Params). zid < q.1.nr_zones) (sym (buffer_params f g e)) h)
              (subst (λ (d : ℕ → ZoneDesc). (d zid).zrwav ≡ false) (sym same) b))
            (λ u k. record {
              taken = k.1 ∙ ground arith;
              wrote = λ _. with_buffer f g e req zid slba u k.0;
              retried = λ y. absurd (cc (k.1, y));
              slba = k.2;
              reported = k.3;
            }))
