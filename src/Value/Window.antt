-- ===== src/Value/Window.antt =====
-- lib/pc_val.c: how many bytes of a value are written, and that reading looks at no others.
use pointcloud.Common.{ℕ, zero, suc, ◌≤◌, ◌≡◌, refl, sym, ap, ◌∙◌, List, length, take, some, arith}
use pointcloud.Common.Result.{ok}
use pointcloud.Bytes.{slice}
use pointcloud.Bytes.Valid.{slice_ok}
use pointcloud.Bytes.Words.{length-bytes_of}
use pointcloud.Value.{Doubles, double_from_ptr}
use pointcloud.Value.Write.{value_bytes}
use pointcloud.Schema.Offsets.{width, IsKnown}

slice-take :
    (p q : List ℕ) (k : ℕ)
    → take k p ≡ take k q
    → k ≤ length p
    → k ≤ length q
    → slice p 0 k ≡ slice q 0 k
slice-take p q k e hp hq =
    slice_ok p 0 k (omega arith) ∙ ap ok e ∙ sym (slice_ok q 0 k (omega arith))

-- What is written for a value.
abbrev pub Written {ℓ} : {D : Type ℓ} → Doubles D → ℕ → D → Type 0
Written doubles i v =
    (bytes : List ℕ) × (value_bytes doubles i v ≡ some bytes) × (length bytes ≡ width i)

module _ {ℓ} {D : Type ℓ} (doubles : Doubles D) where
  pub value_bytes_known : (i : ℕ) (v : D) → IsKnown i → Written doubles i v
  unfolding value_bytes width
  value_bytes_known zero v h = absurd (omega arith)
  value_bytes_known (suc zero) v h = (_, refl, length-bytes_of 1 _)
  value_bytes_known (suc (suc zero)) v h = (_, refl, length-bytes_of 1 _)
  value_bytes_known (suc (suc (suc zero))) v h = (_, refl, length-bytes_of 2 _)
  value_bytes_known (suc (suc (suc (suc zero)))) v h = (_, refl, length-bytes_of 2 _)
  value_bytes_known (suc (suc (suc (suc (suc zero))))) v h = (_, refl, length-bytes_of 4 _)
  value_bytes_known (suc (suc (suc (suc (suc (suc zero)))))) v h = (_, refl, length-bytes_of 4 _)
  value_bytes_known (suc (suc (suc (suc (suc (suc (suc zero))))))) v h =
      (_, refl, length-bytes_of 8 _)
  value_bytes_known (suc (suc (suc (suc (suc (suc (suc (suc zero)))))))) v h =
      (_, refl, length-bytes_of 8 _)
  value_bytes_known (suc (suc (suc (suc (suc (suc (suc (suc (suc zero))))))))) v h =
      (_, refl, length-bytes_of 8 _)
  value_bytes_known (suc (suc (suc (suc (suc (suc (suc (suc (suc (suc zero)))))))))) v h =
      (_, refl, length-bytes_of 4 _)
  value_bytes_known (suc (suc (suc (suc (suc (suc (suc (suc (suc (suc (suc n))))))))))) v h =
      absurd (omega arith)

  pub double_from_ptr-window :
      (p q : List ℕ) (i : ℕ)
      → IsKnown i
      → take (width i) p ≡ take (width i) q
      → width i ≤ length p
      → width i ≤ length q
      → double_from_ptr doubles p i ≡ double_from_ptr doubles q i
  unfolding double_from_ptr width
  double_from_ptr-window p q zero h e hp hq = absurd (omega arith)
  double_from_ptr-window p q (suc zero) h e hp hq = rw (slice-take p q 1 e hp hq)
  double_from_ptr-window p q (suc (suc zero)) h e hp hq = rw (slice-take p q 1 e hp hq)
  double_from_ptr-window p q (suc (suc (suc zero))) h e hp hq = rw (slice-take p q 2 e hp hq)
  double_from_ptr-window p q (suc (suc (suc (suc zero)))) h e hp hq = rw (slice-take p q 2 e hp hq)
  double_from_ptr-window p q (suc (suc (suc (suc (suc zero))))) h e hp hq =
      rw (slice-take p q 4 e hp hq)
  double_from_ptr-window p q (suc (suc (suc (suc (suc (suc zero)))))) h e hp hq =
      rw (slice-take p q 4 e hp hq)
  double_from_ptr-window p q (suc (suc (suc (suc (suc (suc (suc zero))))))) h e hp hq =
      rw (slice-take p q 8 e hp hq)
  double_from_ptr-window p q (suc (suc (suc (suc (suc (suc (suc (suc zero)))))))) h e hp hq =
      rw (slice-take p q 8 e hp hq)
  double_from_ptr-window p q (suc (suc (suc (suc (suc (suc (suc (suc (suc zero))))))))) h e hp hq =
      rw (slice-take p q 8 e hp hq)
  double_from_ptr-window p q (suc (suc (suc (suc (suc (suc (suc (suc (suc (suc zero)))))))))) h e hp
        hq =
      rw (slice-take p q 4 e hp hq)
  double_from_ptr-window p q (suc (suc (suc (suc (suc (suc (suc (suc (suc (suc (suc n))))))))))) h e
        hp hq =
      absurd (omega arith)
