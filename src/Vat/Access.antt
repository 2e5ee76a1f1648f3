-- ===== src/Vat/Access.antt =====
-- The calls that tasks make on the shared context (DVH_Library/src/VAT_Context.cpp) and, through it, on
-- the vision processor and the repository.
use Prim.Native.String.{String}
use vision_motion_framework.Prelude.{Bool, true, false, Option, some, List, ℤ, ℕ}
use vision_motion_framework.Vat.Context.{
  VisionPosition, get_param_as, convert, set_seq_param, pop_vision_position, peek_vision_position,
  add_vision_position,
}
use vision_motion_framework.Vat.World.{
  World, Env, Offset, absent, number, malformed, VatCommand, unknown_command, ret, throw, M, pure,
  modify, require, ◌>>=◌, ◌>>◌, logged, receiver_initialized, requested, asked_validity, read_data,
  loaded_group, loaded_z, saved_z, saved_calibration, saved_hand_pitch,
}

module _ {S T D : Type 0} where
  abbrev pub peek_position : M (World S T D) (Option (VisionPosition D))
  peek_position w = ret (peek_vision_position w.ctx) w

  abbrev pub pop_position : M (World S T D) (Option (VisionPosition D))
  pop_position w = let (p, c) = pop_vision_position w.ctx in ret p (record w { ctx = c })

  abbrev pub add_position : VisionPosition D → M (World S T D) (Unit {0})
  add_position p = modify λ w. record w { ctx = add_vision_position p w.ctx }

  -- `GetVisionProcessorInterface()`, as whether it is not null.
  abbrev pub has_processor : M (World S T D) Bool
  has_processor w = let c = w.ctx in ret c.processor w

  abbrev pub has_repository : M (World S T D) Bool
  has_repository w = let c = w.ctx in ret c.repo w

  module _ (env : Env D) where
    abbrev pub get_seq_int : String → ℤ → M (World S T D) ℤ
    get_seq_int key default w =
        let c = w.ctx in ret (get_param_as (convert env.parse_int) key default c.seq_params) w

    abbrev pub get_seq_double : String → D → M (World S T D) D
    get_seq_double key default w =
        let c = w.ctx in ret (get_param_as (convert env.parse_double) key default c.seq_params) w

    abbrev pub get_seq_text : String → M (World S T D) String
    get_seq_text key w = let c = w.ctx in ret (get_param_as some key "" c.seq_params) w

    abbrev pub set_seq_int : String → ℤ → M (World S T D) (Unit {0})
    set_seq_int key value =
        modify λ w. record w { ctx = set_seq_param key (env.format_int value) w.ctx }

    abbrev pub set_seq_double : String → D → M (World S T D) (Unit {0})
    set_seq_double key value =
        modify λ w. record w { ctx = set_seq_param key (env.format_double value) w.ctx }

    -- `InitializeRecvThread` on a processor that must not be null.
    abbrev pub initialize_recv_thread : M (World S T D) (Unit {0})
    initialize_recv_thread = do p ← has_processor; require p; modify (logged receiver_initialized)

    abbrev request_of : Bool → VatCommand → M (World S T D) Bool
    request_of false cmd w = ret false w
    request_of true cmd w =
        let c = w.ctx in
        let ok = env.request w.log cmd c.vision_params in
        ret ok (logged (requested cmd c.vision_params ok) w)

    -- `ExecuteVisionCommand`: it needs a processor and a known command.
    unfoldable pub execute_vision_command : VatCommand → M (World S T D) Bool
    execute_vision_command unknown_command w = ret false w
    execute_vision_command cmd w = let c = w.ctx in request_of c.processor cmd w

    -- `IsValid(Measure)` on a processor that must not be null.
    abbrev pub is_valid : M (World S T D) Bool
    is_valid = do
      p ← has_processor
      require p
      λ w. let ok = env.valid w.log in ret ok (logged (asked_validity ok) w)

    abbrev offset_or_zero : Offset D → M (World S T D) D
    offset_or_zero absent w = ret env.zero w
    offset_or_zero (number x) w = ret x w
    offset_or_zero malformed w = throw "stod" w

    -- `GetLatestData` and the two offsets in it, 0.0 where the data has none.
    abbrev pub get_offsets : M (World S T D) (D × D)
    get_offsets w =
        let dx = env.x_offset w.log in
        let dy = env.y_offset w.log in
        (do modify (logged read_data); x ← offset_or_zero dx; y ← offset_or_zero dy; pure (x, y)) w

    abbrev pub load_group : ℤ → M (World S T D) (Option (List ℤ))
    load_group camera w =
        let r = env.load_group w.log camera in ret r (logged (loaded_group camera r) w)

    abbrev pub load_z : ℤ → ℤ → ℤ → M (World S T D) (Option D)
    load_z camera location pkg w =
        let r = env.load_z w.log camera location pkg in
        ret r (logged (loaded_z camera location pkg r) w)

    abbrev pub save_z : ℤ → ℤ → ℤ → D → M (World S T D) Bool
    save_z camera location pkg z w =
        let ok = env.save_z w.log camera location pkg z in
        ret ok (logged (saved_z camera location pkg z ok) w)

  -- `SaveCalibrationPosResult`, whose result the tasks ignore.
  abbrev pub save_calibration : ℤ → ℤ → ℤ → D → D → M (World S T D) (Unit {0})
  save_calibration camera location pkg x y =
      modify (logged (saved_calibration camera location pkg x y))

  -- `SaveHandPitchResult`, whose result the tasks ignore.
  abbrev pub save_hand_pitch : ℤ → ℤ → ℕ → ℕ → D × D → D × D → M (World S T D) (Unit {0})
  save_hand_pitch hand pkg col row narrow_offset wide_offset =
      modify (logged (saved_hand_pitch hand pkg col row narrow_offset wide_offset))
