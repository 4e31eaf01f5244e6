-- ===== src/Fdp/Context/Features.antt =====
-- The feature FDP Events of fdp_ftl.c: what Set Features leaves, and what Get Features then shows.
use nvmevirt_fdp.Prelude.{
  ℕ, ◌/◌, ◌%◌, ◌^◌, ◌<◌, ◌≡◌, refl, ap, ◌∙◌, arith, Bool, true, List, [], ◌∷◌, map, some, take,
  ◌==◌, if◌then◌else◌,
}
use nvmevirt_fdp.Fdp.Context.{
  FdpCtx, EventSetting, EventDesc, desc_of, apply_desc, apply_descs, fdp_get_feature_events,
  fdp_set_feature_events,
}

-- Whether a type is enabled after the descriptors: the last one that names it decides by its bit 0.
unfoldable pub decided : List EventDesc → ℕ → Bool → Bool
decided [] type b = b
decided (d ∷ ds) type b = decided ds type (if type == d.evt then d.evta % 2 == 1 else b)

abbrev pub redecided : List EventDesc → EventSetting → EventSetting
redecided ds e = record { type = e.type; enabled = decided ds e.type e.enabled }

apply_desc-map :
    (d : EventDesc) (es : List EventSetting) → (apply_desc d es).0 ≡ map (redecided (d ∷ [])) es
unfolding apply_desc decided
apply_desc-map d [] = refl
apply_desc-map d (e ∷ es) = ground (arith, apply_desc-map d es)

map-redecided :
    (d : EventDesc) (ds : List EventDesc) (es : List EventSetting)
    → map (redecided ds) (map (redecided (d ∷ [])) es) ≡ map (redecided (d ∷ ds)) es
unfolding decided
map-redecided d ds [] = refl
map-redecided d ds (e ∷ es) = ap (◌∷◌ (redecided (d ∷ ds) e)) (map-redecided d ds es)

apply_descs-map :
    (ds : List EventDesc) (es : List EventSetting) → (apply_descs ds es).0 ≡ map (redecided ds) es
unfolding apply_descs decided
apply_descs-map [] [] = refl
apply_descs-map [] (e ∷ es) = ap (◌∷◌ e) (apply_descs-map [] es)
apply_descs-map (d ∷ ds) es =
    apply_descs-map ds (apply_desc d es).0 ∙ (rw (apply_desc-map d es) (map-redecided d ds es))

-- Set Features (FDP Events), where bits 31:16 of CDW11 give a count of descriptors below 256 (of a
-- larger count the code reads the low 8 bits only): the settings that the buffer's first descriptors, as many
-- as the count, name are left at what the last descriptor for their type says, and the others as
-- they were; Get Features then reports exactly that, for each of the settings in their order.
pub get-set_feature_events :
    (c : FdpCtx) (dw11 : ℕ) (buf : List EventDesc)
    → dw11 / 2 ^ 16 % 2 ^ 16 < 256
    → (fdp_get_feature_events (fdp_set_feature_events c dw11 (some buf)).0 true).1
      ≡ map desc_of (map (redecided (take (dw11 / 2 ^ 16 % 2 ^ 16) buf)) c.events)
unfolding fdp_get_feature_events fdp_set_feature_events
get-set_feature_events c dw11 buf h =
    let count : dw11 / 2 ^ 16 % 2 ^ 16 ≡ dw11 / 2 ^ 16 % 2 ^ 8 = omega arith in
    rw count (ap (map desc_of) (apply_descs-map (take (dw11 / 2 ^ 16 % 2 ^ 8) buf) c.events))
