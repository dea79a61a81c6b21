-- ===== src/Minidrv/Validation/NoWrite.antt =====
-- `resolve` without a write.
use workcentre_3119_modern_d.Prelude.{
  ℕ, suc, zero, ◌+◌, ◌*◌, ◌==◌, ◌<◌, ◌≤◌, ◌≡◌, inl, inr, refl, sym, ap, ◌∙◌, true, false, not, ◌||◌,
  [], arith, some, Bool-cases,
}
use workcentre_3119_modern_d.Prelude.Int.{ℤ, pos, negsuc, pos_part, neg_part, eq_ℤ, leb_ℤ, ◌+ℤ◌}
use workcentre_3119_modern_d.Errors.{ok}
use workcentre_3119_modern_d.Scan.Window.{ColorMode}
use workcentre_3119_modern_d.Wia.{FlatbedSettings, supported_resolution, mode_of}
use workcentre_3119_modern_d.Wia.Request.{to_request-IsRequest}
use workcentre_3119_modern_d.Minidrv.{success}
use workcentre_3119_modern_d.Minidrv.Axis.{AxisInput, resolve_axis, resolution_changed}
use workcentre_3119_modern_d.Minidrv.Axis.Fits.{resolve_axis_keeps}
use workcentre_3119_modern_d.Minidrv.Catalog.{PropertyCatalog, with_settings, max_extent}
use workcentre_3119_modern_d.Minidrv.Catalog.Values.{with_settings-Selected}
use workcentre_3119_modern_d.Minidrv.Validation.{
  depth_is, depth_matches, known_depth, mode_and_depth, resolve_mode_and_depth, resolve_resolutions,
  x_axis, y_axis, placed, resolve,
}

natural_part : (z : ℤ) → neg_part z ≡ 0 → z ≡ pos (pos_part z)
natural_part (pos n) h = refl
natural_part (negsuc n) h = absurd (omega arith)

eq_refl : (z : ℤ) → eq_ℤ z z ≡ true
eq_refl z = ground arith

some_dpi : (z : ℤ) → supported_resolution z ≡ true → 0 < pos_part z
some_dpi (pos n) h = ground arith
some_dpi (negsuc n) h = absurd (cc h)

some_extent :
    (units dpi pixels : ℕ) → 0 < units → 0 < dpi → units * dpi ≡ pixels * 1200 → 0 < pixels
some_extent (suc u) (suc d) pixels hu hd e = grind arith
some_extent zero dpi pixels hu hd e = absurd (omega arith)
some_extent (suc u) zero pixels hu hd e = absurd (omega arith)

mode_matches :
    (s : FlatbedSettings) (m : ColorMode)
    → mode_of s.data_type s.depth ≡ ok m
    → depth_matches s ≡ true
mode_matches s m e = elim (Bool-cases (eq_ℤ s.data_type (pos 2))) [
  | inl h ↦
      let known : known_depth s.data_type ≡ some (pos 8) = ground arith in
      let same : eq_ℤ (pos 8) s.depth ≡ true = ground arith in ap (depth_is s.depth) known ∙ same
  | inr h ↦
      let color : eq_ℤ s.data_type (pos 3) ≡ true = ground arith in
      let known : known_depth s.data_type ≡ some (pos 24) = ground arith in
      let same : eq_ℤ (pos 24) s.depth ≡ true = ground arith in ap (depth_is s.depth) known ∙ same
]

room_ok :
    (position extent : ℤ) (max : ℕ)
    → neg_part position ≡ 0
    → neg_part extent ≡ 0
    → leb_ℤ (position +ℤ extent) (pos max) ≡ true
    → pos_part position + pos_part extent ≤ max
room_ok (pos p) (pos e) max np ne h = ground arith
room_ok (pos p) (negsuc e) max np ne h = absurd (omega arith)
room_ok (negsuc p) extent max np ne h = absurd (omega arith)

-- Five settings at a time.
abbrev put : FlatbedSettings → ℤ → ℤ → ℤ → ℤ → ℤ → FlatbedSettings
put s dpi xp xe yp ye = record s {
  y_resolution = dpi;
  x_position = xp;
  x_extent = xe;
  y_position = yp;
  y_extent = ye;
}

put_same :
    (s : FlatbedSettings) (dpi xp xe yp ye : ℤ)
    → s.y_resolution ≡ dpi
    → s.x_position ≡ xp
    → s.x_extent ≡ xe
    → s.y_position ≡ yp
    → s.y_extent ≡ ye
    → put s dpi xp xe yp ye ≡ s
put_same s dpi xp xe yp ye a b c d e =
    ap (λ (t : ℤ). put s t xp xe yp ye) (sym a)
    ∙ ap (λ (t : ℤ). put s s.y_resolution t xe yp ye) (sym b)
    ∙ ap (λ (t : ℤ). put s s.y_resolution s.x_position t yp ye) (sym c)
    ∙ ap (λ (t : ℤ). put s s.y_resolution s.x_position s.x_extent t ye) (sym d)
    ∙ ap (λ (t : ℤ). put s s.y_resolution s.x_position s.x_extent s.y_position t) (sym e)

-- A side that a selection has, resolved again.
side_kept :
    (i : AxisInput) (position extent : ℤ) (max : ℕ)
    → i.max_extent ≡ pos max
    → resolution_changed i ≡ false
    → i.position.explicit ≡ false
    → i.extent.explicit ≡ false
    → i.position.current ≡ position
    → i.extent.current ≡ extent
    → neg_part position ≡ 0
    → neg_part extent ≡ 0
    → 0 < pos_part extent
    → leb_ℤ (position +ℤ extent) (pos max) ≡ true
    → resolve_axis i ≡ success (pos_part position, pos_part extent)
side_kept i position extent max m same pe ee at of np ne nonempty inside =
    let room = room_ok position extent max np ne inside in
    let p : position ≡ pos (pos_part position) = natural_part position np in
    let e : extent ≡ pos (pos_part extent) = natural_part extent ne in
    let bed : pos_part i.max_extent ≡ max = ap pos_part m in
    resolve_axis_keeps i (pos_part position) (pos_part extent) same pe ee (at ∙ p) (of ∙ e) nonempty
      (omega (arith, room, bed))

-- A write of nothing keeps every setting that a selection has.
pub resolve_keeps :
    (c c' : PropertyCatalog) (s : FlatbedSettings)
    → with_settings c s ≡ success c'
    → resolve c s s [] ≡ success s
unfolding resolve resolve_mode_and_depth resolve_resolutions
resolve_keeps c c' s e =
    let sel = with_settings-Selected c s c' e in
    let r = sel.request.0 in
    let q = to_request-IsRequest s r sel.request.1 in
    let dpi = s.x_resolution in
    let most = max_extent c dpi in
    let positive = some_dpi dpi q.supported in
    let wide =
      some_extent r.width_units (pos_part dpi) (pos_part s.x_extent) q.not_empty.0 positive
        q.wide.0 in
    let high =
      some_extent r.height_units (pos_part s.y_resolution) (pos_part s.y_extent) q.not_empty.1
        (omega (arith, positive, ap pos_part q.square)) q.high.0 in
    let x =
      side_kept (x_axis s s [] dpi most.0) s.x_position s.x_extent most.0 refl
        (ap not (eq_refl dpi)) refl refl refl refl q.left.1 q.wide.1 wide sel.in_width in
    let y =
      side_kept (y_axis s s [] dpi most.1) s.y_position s.y_extent most.1 refl
        (ap (λ (z : ℤ). not (eq_ℤ z dpi)) (sym q.square) ∙ ap not (eq_refl dpi)) refl refl refl refl
        q.top.1 q.high.1 high sel.in_height in
    let moded : mode_and_depth false false s ≡ success s =
      ground (arith, mode_matches s r.mode q.mode) in
    let whole : placed s dpi (pos_part s.x_position, pos_part s.x_extent)
          (pos_part s.y_position, pos_part s.y_extent)
        ≡ s =
      put_same s dpi (pos (pos_part s.x_position)) (pos (pos_part s.x_extent))
        (pos (pos_part s.y_position)) (pos (pos_part s.y_extent)) (sym q.square)
        (natural_part s.x_position q.left.1) (natural_part s.x_extent q.wide.1)
        (natural_part s.y_position q.top.1) (natural_part s.y_extent q.high.1) in
    let x_room = room_ok s.x_position s.x_extent most.0 q.left.1 q.wide.1 sel.in_width in
    let y_room = room_ok s.y_position s.y_extent most.1 q.top.1 q.high.1 sel.in_height in
    let room : ((most.0 == 0) || (most.1 == 0)) ≡ false =
      ground (arith, x_room, y_room, wide, high) in
    rw e (rw moded (rw room (rw x (rw y (rw whole (rw e refl))))))
