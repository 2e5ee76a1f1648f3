-- ===== src/Processor/Slt/Measured.antt =====
-- A measurement on its way from the vision computer to the tasks, DVH_Library/src/VisionSLTProcessor.cpp.
use vision_motion_framework.Prelude.{
  ℕ, ◌≡◌, refl, ◌∙◌, true, false, ltb, ge→ltb, ◌==◌, some, List, [], ◌∷◌, ◌++◌, length, arith, map,
  get_elem?,
}
use vision_motion_framework.Vision.Bytes.{int32_bytes, bytes_int32}
use vision_motion_framework.Vat.World.{measure}
use vision_motion_framework.Processor.Store.{Store, DataMap, get_latest_data, set_latest_data}
use vision_motion_framework.Processor.Layout.{
  measure_bytes, measure_size, field, int_at, text_at, concat,
}
use vision_motion_framework.Processor.Layout.Texts.{
  kept, text_at-past, text_at-fields, length-fields,
}
use vision_motion_framework.Processor.Slt.{on_measure, store_measure}

module _ (to_string : ℕ → List ℕ) where
  abbrev texts_of : List ℕ → List ℕ → List ℕ → List ℕ → DataMap
  texts_of error x y z =
      ("Error Description", error) ∷ ("XOffset", x) ∷ ("YOffset", y) ∷ ("ZFocus", z) ∷ []

  on_measure-stores :
      (body error x y z : List ℕ) (s : Store)
      → ltb (length body) measure_size ≡ false
      → (int_at 4 body == 0) ≡ true
      → text_at 8 0 body ≡ some error
      → text_at 8 1 body ≡ some x
      → text_at 8 2 body ≡ some y
      → text_at 8 3 body ≡ some z
      → on_measure to_string body s ≡ some (set_latest_data measure (texts_of error x y z) s)
  unfolding on_measure store_measure
  on_measure-stores body error x y z s long ok e ex ey ez = rw (long, ok, e, ex, ey, ez) refl

  module _ (id : ℕ) (error x y z : List ℕ) (rest : List (List ℕ)) (six : length rest ≡ 6) where
    abbrev texts : List (List ℕ)
    texts = error ∷ x ∷ y ∷ z ∷ rest

    abbrev reply : List ℕ
    reply = measure_bytes (record { data_id = id; status = 0; c_data = map field texts })

    text_of_reply :
        (i : ℕ) (text : List ℕ)
        → get_elem? texts i ≡ some text
        → text_at 8 i reply ≡ some (kept text)
    unfolding measure_bytes int32_bytes
    text_of_reply i text e =
        text_at-past i 0 (int32_bytes id ++ int32_bytes 0) (concat (map field texts))
        ∙ text_at-fields texts i text e

    status_of_reply : (int_at 4 reply == 0) ≡ true
    unfolding measure_bytes int32_bytes int_at bytes_int32
    status_of_reply = refl

    length_of_reply : ltb (length reply) measure_size ≡ false
    unfolding measure_bytes int32_bytes
    length_of_reply = ge→ltb (length reply) measure_size (omega (arith, length-fields texts, six))

  -- A measure body with the status OK and ten fields that were written with texts is stored, and the tasks
  -- read the four texts of the measurement, each cut at its first zero byte and to 63 bytes.
  pub on_measure-measure_bytes :
      (id : ℕ) (error x y z : List ℕ) (rest : List (List ℕ)) (s : Store)
      → length rest ≡ 6
      → (s' : Store) × (on_measure to_string
            (measure_bytes
              (record { data_id = id; status = 0; c_data = map field (error ∷ x ∷ y ∷ z ∷ rest) }))
            s
          ≡ some s')
        × (get_latest_data measure s'
            ≡ ("Error Description", kept error)
              ∷ ("XOffset", kept x)
              ∷ ("YOffset", kept y)
              ∷ ("ZFocus", kept z)
              ∷ [])
  unfolding get_latest_data set_latest_data
  on_measure-measure_bytes id error x y z rest s six = (
    set_latest_data measure (texts_of (kept error) (kept x) (kept y) (kept z)) s,
    on_measure-stores (reply id error x y z rest six) _ _ _ _ s
        (length_of_reply id error x y z rest six) (status_of_reply id error x y z rest six)
        (text_of_reply id error x y z rest six 0 error refl)
        (text_of_reply id error x y z rest six 1 x refl)
        (text_of_reply id error x y z rest six 2 y refl)
        (text_of_reply id error x y z rest six 3 z refl),
    refl,
  )
