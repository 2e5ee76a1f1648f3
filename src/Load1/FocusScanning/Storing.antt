-- ===== src/Load1/FocusScanning/Storing.antt =====
-- What HandleSaveFocusResult of CLoad1PerformFocusScanningTask.cpp stores.
use Prim.Native.String.{String}
use vision_motion_framework.Prelude.{
  ◌≡◌, refl, ◌⊎◌, inl, inr, Bool, true, false, Option, none, some, List, [], ◌∷◌, ◌++◌, arith, ℤ,
  pos, ltb_ℤ, if◌then◌else◌,
}
use vision_motion_framework.Vat.World.{
  World, Env, Event, logged, Log, loaded_z, saved_z, ret, ◌>>=◌,
}
use vision_motion_framework.Vat.Access.{load_z}
use vision_motion_framework.Vat.Polling.{bind-ret, ret-result}
use vision_motion_framework.Vat.Travel.{
  Occurs, Occurs-append_left, Occurs-append_right, OnlyCalls, OnlyCalls-trans,
}
use vision_motion_framework.Load1.FocusScanning.{
  TaskWorld, upper_target, target_a, target_b, load_table1, picker, table_offset, jig_offset,
  picker_offset, save_below, save_focus, save_location, save_locations, save_targets, unless_failed,
}

module _ {D : Type 0} (env : Env D) (camera pkg : ℤ) (z : D) where
  -- The height h for a location, if z is the one that was measured.
  abbrev pub IsHeightFor : ℤ → D → Log D → Type 0
  IsHeightFor location h log =
      ((ltb_ℤ location load_table1 ≡ true) × (h ≡ env.add z (table_offset env)))
      ⊎ ((ltb_ℤ location load_table1 ≡ false)
          × (ltb_ℤ location picker ≡ true)
          × (h ≡ env.sub z (jig_offset env)))
      ⊎ ((ltb_ℤ location load_table1 ≡ false)
          × (ltb_ℤ location picker ≡ false)
          × ((upper : D) × Occurs (loaded_z (pos 6) upper_target pkg (some upper)) log
              × (h ≡ env.sub upper (picker_offset env))))

  abbrev pub IsStored : Log D → ℤ → Type 0
  IsStored log location =
      (h : D) × IsHeightFor location h log × Occurs (saved_z camera location pkg h true) log

  abbrev pub AllStored : Log D → List ℤ → Type 0
  AllStored log [] = Unit {0}
  AllStored log (location ∷ locations) = IsStored log location × AllStored log locations

  IsStored-append :
      (xs es : Log D) (location : ℤ)
      → ((e : Event D) → Occurs e xs → Occurs e es)
      → IsStored xs location
      → IsStored es location
  IsStored-append xs es location more (h, inl i, o) = (h, inl i, more _ o)
  IsStored-append xs es location more (h, inr (inl i), o) = (h, inr (inl i), more _ o)
  IsStored-append xs es location more (h, inr (inr (a, b, (u, p, e))), o) =
      (h, inr (inr (a, b, (u, more _ p, e))), more _ o)

  pub AllStored-append_left :
      (xs es : Log D) (locations : List ℤ) → AllStored xs locations → AllStored (xs ++ es) locations
  AllStored-append_left xs es [] a = tt
  AllStored-append_left xs es (location ∷ locations) (s, a) = (
    IsStored-append xs (xs ++ es) location (λ e. Occurs-append_left e xs es) s,
    AllStored-append_left xs es locations a,
  )

  save_focus-OnlyCalls :
      (location : ℤ) (h : D) (w w' : TaskWorld D)
      → save_focus env camera location pkg h w ≡ ret none w'
      → OnlyCalls (saved_z camera location pkg h true ∷ []) w w'
  unfolding save_focus
  save_focus-OnlyCalls location h w w' e = ground arith

  -- Calls that store a height for the location are all that happened.
  Stores : ℤ → TaskWorld D → TaskWorld D → Type 0
  Stores location w w' = (es : Log D) × OnlyCalls es w w' × IsStored es location

  save_below-Stores :
      (location : ℤ) (o : Option D) (w w' : TaskWorld D)
      → save_below env camera location pkg o (logged (loaded_z (pos 6) upper_target pkg o) w)
        ≡ ret none w'
      → ltb_ℤ location load_table1 ≡ false
      → ltb_ℤ location picker ≡ false
      → Stores location w w'
  unfolding Stores
  save_below-Stores location none w w' e p q = cc
  save_below-Stores location (some upper) w w' e p q =
      let h = env.sub upper (picker_offset env) in
      let asked = loaded_z (pos 6) upper_target pkg (some upper) ∷ [] in
      let saved = saved_z camera location pkg h true ∷ [] in
      (
        saved ++ asked,
        OnlyCalls-trans asked saved w _ w' refl (save_focus-OnlyCalls location h _ w' e),
        (h, inr (inr (p, q, (upper, inr (inl refl), refl))), inl refl),
      )

  save_location-Stores :
      (location : ℤ) (w w' : TaskWorld D)
      → save_location env camera pkg z location w ≡ ret none w'
      → Stores location w w'
  unfolding save_location Stores
  save_location-Stores location w w' e =
      by_side (ltb_ℤ location load_table1) (ltb_ℤ location picker) refl refl e
    where
      saved : D → Log D
      saved h = saved_z camera location pkg h true ∷ []

      by_side :
          (a b : Bool)
          → ltb_ℤ location load_table1 ≡ a
          → ltb_ℤ location picker ≡ b
          → (if a
                then save_focus env camera location pkg (env.add z (table_offset env))
                else if b
                then save_focus env camera location pkg (env.sub z (jig_offset env))
                else (load_z env (pos 6) upper_target pkg >>= save_below env camera location pkg))
              w
            ≡ ret none w'
          → Stores location w w'
      by_side true b p q e =
          (saved _, save_focus-OnlyCalls location _ w w' e, (_, inl (p, refl), inl refl))
      by_side false true p q e =
          (saved _, save_focus-OnlyCalls location _ w w' e, (_, inr (inl (p, q, refl)), inl refl))
      by_side false false p q e = save_below-Stores location _ w w' e p q

  unless-none :
      (rest : World _ _ D → _) (o : Option String) (u w' : TaskWorld D)
      → unless_failed env rest o u ≡ ret none w'
      → (o ≡ none) × (rest u ≡ ret none w')
  unless-none rest none u w' e = (refl, e)
  unless-none rest (some t) u w' e = cc

  pub save_locations-AllStored :
      (locations : List ℤ) (w w' : TaskWorld D)
      → save_locations env camera pkg z locations w ≡ ret none w'
      → (es : Log D) × OnlyCalls es w w' × AllStored es locations
  unfolding save_locations Stores
  save_locations-AllStored [] w w' e = ([], ground arith, tt)
  save_locations-AllStored (location ∷ locations) w w' e =
      let (r, u, one, rest) = bind-ret (save_location env camera pkg z location) _ w _ w' e in
      let (fine, others) = unless-none _ r u w' rest in
      let (es, calls, stored) = save_location-Stores location w u (ret-result one fine) in
      let (fs, calls', all) = save_locations-AllStored locations u w' others in
      (
        fs ++ es,
        OnlyCalls-trans es fs w u w' calls calls',
        (
          IsStored-append es (fs ++ es) location (λ e. Occurs-append_right e fs es) stored,
          AllStored-append_left fs es locations all,
        ),
      )

  -- The height itself was stored for the three targets.
  abbrev pub TargetsStored : Log D → Type 0
  TargetsStored log =
      Occurs (saved_z camera upper_target pkg z true) log
      × Occurs (saved_z camera target_a pkg z true) log
      × Occurs (saved_z camera target_b pkg z true) log

  pub save_targets-TargetsStored :
      (above : Bool) (w w' : TaskWorld D)
      → save_targets env above camera pkg z w ≡ ret none w'
      → (es : Log D) × OnlyCalls es w w' × (above ≡ true → TargetsStored es)
  unfolding save_targets save_focus
  save_targets-TargetsStored false w w' e = ([], ground arith, λ t. ground arith)
  save_targets-TargetsStored true w w' e = (
    saved_z camera target_b pkg z true
        ∷ saved_z camera target_a pkg z true
        ∷ saved_z camera upper_target pkg z true
        ∷ [],
    ground arith,
    λ t. ground arith,
  )

  pub TargetsStored-append_right : (xs es : Log D) → TargetsStored es → TargetsStored (xs ++ es)
  TargetsStored-append_right xs es (a, b, c) =
      (Occurs-append_right _ xs es a, Occurs-append_right _ xs es b, Occurs-append_right _ xs es c)

  pub TargetsStored-append_left : (xs es : Log D) → TargetsStored xs → TargetsStored (xs ++ es)
  TargetsStored-append_left xs es (a, b, c) =
      (Occurs-append_left _ xs es a, Occurs-append_left _ xs es b, Occurs-append_left _ xs es c)
