-- ===== src/Load1/FocusScanning/Results.antt =====
-- What a poll of CLoad1PerformFocusScanningTask.cpp that ends a measurement has stored.
use Prim.Native.String.{String}
use vision_motion_framework.Prelude.{
  ◌≡◌, refl, ◌≢◌, inl, true, Option, none, some, List, [], ◌∷◌, ◌++◌, arith, ℤ, pos, ltb_ℤ, subst,
  get_elem?, append_assoc,
}
use vision_motion_framework.Vat.Context.{
  Context, VisionPosition, is_vision_position_empty, pop_vision_position, front, behind,
}
use vision_motion_framework.Vat.World.{Env, Log, logged, M, loaded_group, ret, substep}
use vision_motion_framework.Vat.Task.{TaskResult, tr_next, tr_prev, tr_error}
use vision_motion_framework.Vat.Polling.{
  bind-ret, ret-result, deref-ret, or_fail-ret, given_or_fail-ret,
}
use vision_motion_framework.Vat.Travel.{Occurs, Occurs-append_right, OnlyCalls}
use vision_motion_framework.Load1.FocusScanning.{
  TaskWorld, move_down, save_locations, save_targets, save_results, after_saving, next_or_again,
  handle_save_focus_result, save_height, save_popped, save_position,
}
use vision_motion_framework.Load1.FocusScanning.Storing.{
  AllStored, TargetsStored, AllStored-append_left, TargetsStored-append_right,
  TargetsStored-append_left, save_locations-AllStored, save_targets-TargetsStored,
}

module _ {D : Type 0} (env : Env D) where
  -- NEXT when no position is left, and else PREV, from the beginning.
  abbrev pub EndsBy : List (VisionPosition D) → TaskResult → TaskWorld D → Type 0
  EndsBy [] r w' = r ≡ tr_next
  EndsBy (p ∷ ps) r w' = (r ≡ tr_prev) × (w'.state ≡ substep move_down)

  -- Calls that store the height z for a group of locations are among these.
  abbrev pub GroupStored : D → List ℤ → TaskWorld D → Log D → Type 0
  GroupStored z group w es =
      AllStored env w.fields.camera_id w.fields.package_id z es group
      × (ltb_ℤ (pos 5) w.fields.camera_id ≡ true
          → TargetsStored env w.fields.camera_id w.fields.package_id z es)

  -- What one poll did that ended a measurement: the first position is taken out and stored.
  pub record Stored (w : TaskWorld D) (r : TaskResult) (w' : TaskWorld D) : Type 0 where
    pub position : VisionPosition D
    pub others : List (VisionPosition D)
    pub z : D
    pub group : List ℤ
    pub calls : Log D
    pub taken : w.ctx.vision_positions ≡ position ∷ others
    pub left : w'.ctx.vision_positions ≡ others
    pub height : get_elem? position.pos 2 ≡ some z
    pub made : w'.log ≡ calls ++ w.log
    pub loaded : Occurs (loaded_group w.fields.camera_id (some group)) calls
    pub stored : GroupStored z group w calls
    pub ends : EndsBy others r w'

  after-none :
      (rest : M (TaskWorld D) TaskResult) (o : Option String) (u w' : TaskWorld D) (r : TaskResult)
      → r ≢ tr_error
      → after_saving env o rest u ≡ ret r w'
      → (o ≡ none) × (rest u ≡ ret r w')
  after-none rest none u w' r ok e = (refl, e)
  after-none rest (some t) u w' r ok e = absurd (ok (ground arith))

  last_step :
      (r : TaskResult) (w w' : TaskWorld D)
      → next_or_again env (is_vision_position_empty w.ctx) w ≡ ret r w'
      → (w'.ctx ≡ w.ctx) × (w'.log ≡ w.log) × EndsBy w.ctx.vision_positions r w'
  unfolding is_vision_position_empty
  last_step r w w' e = ground arith

  save_results-GroupStored :
      (z : D) (group : List ℤ) (r : TaskResult) (w w' : TaskWorld D)
      → r ≢ tr_error
      → save_results env z group w ≡ ret r w'
      → (es : Log D) × (w'.log ≡ es ++ w.log)
        × (w'.ctx ≡ w.ctx)
        × EndsBy w.ctx.vision_positions r w'
        × GroupStored z group w es
  unfolding save_results
  save_results-GroupStored z group r w w' ok e =
      let camera = w.fields.camera_id in
      let pkg = w.fields.package_id in
      let w₁ = record w { fields = (let t = w.fields in record t { location_ids = group }) } in
      let (o, u, one, rest) =
        bind-ret (save_targets env (ltb_ℤ (pos 5) camera) camera pkg z) _ w₁ r w' e in
      let (fine, rest) = after-none _ o u w' r ok rest in
      let (es, calls, targets) =
        save_targets-TargetsStored env camera pkg z _ w₁ u (ret-result one fine) in
      let (o', v, two, rest) = bind-ret (save_locations env camera pkg z group) _ u r w' rest in
      let (fine', rest) = after-none _ o' v w' r ok rest in
      let (fs, calls', locations) =
        save_locations-AllStored env camera pkg z group u v (ret-result two fine') in
      let (same, silent, ends) = last_step r v w' rest in
      join es fs u v calls calls' targets locations silent same ends
    where
      join :
          (es fs : Log D) (u v : TaskWorld D)
          → OnlyCalls es
              (record w { fields = (let t = w.fields in record t { location_ids = group }) })
              u
          → OnlyCalls fs u v
          → (ltb_ℤ (pos 5) w.fields.camera_id ≡ true
              → TargetsStored env w.fields.camera_id w.fields.package_id z es)
          → AllStored env w.fields.camera_id w.fields.package_id z fs group
          → w'.log ≡ v.log
          → w'.ctx ≡ v.ctx
          → EndsBy v.ctx.vision_positions r w'
          → (es : Log D) × (w'.log ≡ es ++ w.log)
            × (w'.ctx ≡ w.ctx)
            × EndsBy w.ctx.vision_positions r w'
            × GroupStored z group w es
      join es fs u v calls calls' targets locations silent same ends = (
        fs ++ es,
        rw (silent, calls', calls, append_assoc fs es w.log) refl,
        rw (same, calls', calls) refl,
        subst (λ x. EndsBy x r w') (rw (calls', calls) refl) ends,
        (
          AllStored-append_left env w.fields.camera_id w.fields.package_id z fs es group locations,
          λ above. TargetsStored-append_right env _ _ z fs es (targets above),
        ),
      )

  front-taken :
      (w : TaskWorld D) (p : VisionPosition D)
      → (pop_vision_position w.ctx).0 ≡ some p
      → (ps : List (VisionPosition D)) × (w.ctx.vision_positions ≡ p ∷ ps)
        × ((pop_vision_position w.ctx).1.vision_positions ≡ ps)
  unfolding pop_vision_position
  front-taken w p e = go w.ctx.vision_positions refl e
    where
      go :
          (qs : List (VisionPosition D))
          → w.ctx.vision_positions ≡ qs
          → front qs ≡ some p
          → (ps : List (VisionPosition D)) × (w.ctx.vision_positions ≡ p ∷ ps)
            × (behind w.ctx.vision_positions ≡ ps)
      go [] at e = cc
      go (q ∷ qs) at e = (qs, ground (arith, at, e), rw at refl)

  module _ (p : VisionPosition D) (ps : List (VisionPosition D)) (z : D) (r : TaskResult)
      (c : Context D) (w w' : TaskWorld D) (ok : r ≢ tr_error) (height : get_elem? p.pos 2 ≡ some z)
      (taken : w.ctx.vision_positions ≡ p ∷ ps) (left : c.vision_positions ≡ ps) where
    save_results-Stored :
        (group : List ℤ) (answer : Option (List ℤ)) (es : Log D)
        → answer ≡ some group
        → w'.log ≡ es ++ (loaded_group w.fields.camera_id answer ∷ w.log)
        → w'.ctx ≡ c
        → EndsBy c.vision_positions r w'
        → GroupStored z group w es
        → Stored w r w'
    save_results-Stored group answer es loaded made same ends (all, targets) = record {
      position = p;
      others = ps;
      z = z;
      group = group;
      calls = es ++ (loaded_group w.fields.camera_id answer ∷ []);
      taken = taken;
      left = rw (same, left) refl;
      height = height;
      made = rw (made, append_assoc es (loaded_group w.fields.camera_id answer ∷ []) w.log) refl;
      loaded = Occurs-append_right _ es _ (inl (rw loaded refl));
      stored = (
        AllStored-append_left env w.fields.camera_id w.fields.package_id z es _ group all,
        λ above. TargetsStored-append_left env _ _ z es _ (targets above),
      );
      ends = subst (λ x. EndsBy x r w') left ends;
    }

    save_height-Stored : save_height env z (record w { ctx = c }) ≡ ret r w' → Stored w r w'
    unfolding save_height
    save_height-Stored e =
        let answer = env.load_group w.log w.fields.camera_id in
        let v = logged (loaded_group w.fields.camera_id answer) (record w { ctx = c }) in
        let (group, loaded, e) = given_or_fail-ret r v w' ok answer _ (save_results env z) e in
        let (es, made, same, ends, stored) = save_results-GroupStored z group r v w' ok e in
        save_results-Stored group answer es loaded made same ends stored

  pub handle_save_focus_result-Stored :
      (r : TaskResult) (w w' : TaskWorld D)
      → r ≢ tr_error
      → handle_save_focus_result env w ≡ ret r w'
      → Stored w r w'
  unfolding handle_save_focus_result save_popped save_position
  handle_save_focus_result-Stored r w w' ok e =
      let (popped, context) = pop_vision_position w.ctx in
      let (repo, e) = or_fail-ret r w w' ok _ _ (save_popped env) e in
      let (p, first, e) = given_or_fail-ret r _ w' ok popped _ (save_position env) e in
      let (z, height, e) = deref-ret _ (save_height env) _ r w' e in
      let (ps, taken, left) = front-taken w p first in
      save_height-Stored p ps z r _ w w' ok height taken left e
