-- ===== src/Bytes/Codec/RoundTrip.antt =====
-- lib/pc_bytes.c: `pc_bytes_decode` on the output of `pc_bytes_encode`.
use pointcloud.Common.{
  ℕ, ◌+◌, ◌-◌, ◌*◌, ◌^◌, ◌%◌, ◌<◌, ◌≤◌, ◌≡◌, refl, ap, ◌∙◌, false, [], length, replicate, take,
  take-length, append-nil, arith, Bool-cases, inl, inr,
}
use pointcloud.Common.Result.{ok, ◌>>=◌}
use pointcloud.Bytes.{
  Pcbytes, slice, dim_none, dim_rle, dim_sigbits, dim_zlib, bytes_clone, bytes_empty,
}
use pointcloud.Bytes.Valid.{IsRaw, slice_ok, Undone}
use pointcloud.Bytes.Rle.Encode.{encoded, run_length_encode_lem}
use pointcloud.Bytes.Rle.{run_length_encode, run_length_decode}
use pointcloud.Bytes.Rle.RoundTrip.{run_length_decode-encode}
use pointcloud.Bytes.Sigbits.Lossless.{Width, size_of, few_points, sigbits_encode-Undone}
use pointcloud.Bytes.Codec.{Zlib, ZlibLaws, zlib_encode, zlib_decode, bytes_encode, bytes_decode}

pub data Compression : Type 0 where
  none_of rle sigbits zlib_of : Compression

abbrev pub number : Compression → ℕ
number none_of = dim_none
number rle = dim_rle
number sigbits = dim_sigbits
number zlib_of = dim_zlib

no_rest : (n : ℕ) → n - n ≡ 0
no_rest n = omega arith

module _ (size : ℕ) (pcb : Pcbytes) (raw : IsRaw size pcb) where
  whole : slice pcb.bytes 0 pcb.size ≡ ok pcb.bytes
  whole =
      slice_ok pcb.bytes 0 pcb.size (omega (arith, raw.filled, raw.allocated))
      ∙ ap (λ (t : ℕ). ok (take t pcb.bytes)) (omega (arith, raw.filled, raw.allocated))
      ∙ ap ok (take-length pcb.bytes)

  -- A copy has the bytes of the buffer.
  pub bytes_clone-raw : bytes_clone pcb ≡ ok (record pcb { readonly = false })
  unfolding bytes_clone
  bytes_clone-raw = elim (Bool-cases (bytes_empty pcb)) [ inl e ↦ rw e | inr e ↦ rw (e, whole) ]

  module _ (zlib : Zlib) (bound : ℕ → ℕ) (laws : ZlibLaws zlib bound) where
    pub zlib_encode-Undone :
        bound pcb.size ≤ 4 * pcb.size
        → size * pcb.npoints < 2 ^ 64
        → Undone (zlib_encode zlib) (zlib_decode zlib) dim_zlib pcb
    unfolding zlib_encode zlib_decode
    zlib_encode-Undone space small =
        let (out, e) = laws.deflates pcb.bytes (4 * pcb.size) (rw allocated space) in
        record {
          out = record pcb {
            size = length out;
            bytes = out;
            compression = dim_zlib;
            readonly = false;
          };
          encodes = rw (whole, e);
          form = refl;
          decodes =
              rw
                (
                  raw.size_of,
                  slice_ok out 0 (length out) (omega arith),
                  take-length out,
                  size_eq,
                  laws.inflates pcb.bytes out (4 * pcb.size) raw.narrow (rw allocated space) e,
                  none_left,
                  append-nil,
                )
                (ap ok same_buffer);
        }
      where
        allocated : length pcb.bytes ≡ pcb.size
        allocated = omega (arith, raw.filled, raw.allocated)

        same_buffer :
            record pcb { size = length pcb.bytes; compression = dim_none; readonly = false }
            ≡ record pcb { readonly = false }
        same_buffer = rw (allocated, raw.uncompressed)

        size_eq : size * pcb.npoints % 2 ^ 64 ≡ length pcb.bytes
        size_eq = omega (arith, raw.allocated)

        none_left : replicate {A = ℕ} (length pcb.bytes - length pcb.bytes) 0 ≡ []
        none_left = ap (λ (t : ℕ). replicate {A = ℕ} t 0) (no_rest (length pcb.bytes))

  pub bytes_clone-Undone : Undone bytes_clone bytes_clone dim_none pcb
  unfolding bytes_clone bytes_empty
  bytes_clone-Undone = record {
    out = record pcb { readonly = false };
    encodes = bytes_clone-raw;
    form = raw.uncompressed;
    decodes = copied;
  }
    where
      copied : bytes_clone (record pcb { readonly = false }) ≡ ok (record pcb { readonly = false })
      copied = elim (Bool-cases (bytes_empty pcb)) [ inl e ↦ rw e | inr e ↦ rw (e, whole) ]

  pub run_length_encode-Undone :
      pcb.npoints + 1 < 2 ^ 31 → Undone run_length_encode run_length_decode dim_rle pcb
  run_length_encode-Undone few = record {
    out = encoded size pcb;
    encodes = run_length_encode_lem size pcb raw few;
    form = refl;
    decodes =
        rw (run_length_encode_lem size pcb raw few) at (run_length_decode-encode size pcb raw few);
  }

-- Whatever compression is chosen, encoding an uncompressed buffer of 1 point or more of 1, 2, 4 or
-- 8 bytes each, whose bits are fewer than 2^32, returns, and decoding the output gives the buffer
-- back, no longer read-only. For zlib, its stream has to fit the four times the buffer's size that
-- the code allocates.
pub bytes_decode-encode :
    (zlib : Zlib) (bound : ℕ → ℕ)
    → ZlibLaws zlib bound
    → (width : Width) (pcb : Pcbytes) (compression : Compression) → IsRaw (size_of width) pcb
    → 1 ≤ pcb.npoints
    → 8 * size_of width * pcb.npoints < 2 ^ 32
    → bound pcb.size ≤ 4 * pcb.size
    → (bytes_encode zlib pcb (number compression) >>= bytes_decode zlib)
      ≡ ok (record pcb { readonly = false })
unfolding bytes_encode bytes_decode
bytes_decode-encode zlib bound laws width pcb none_of raw nonempty small space =
    let u = bytes_clone-Undone (size_of width) pcb raw in rw (u.encodes, u.form) u.decodes
bytes_decode-encode zlib bound laws width pcb rle raw nonempty small space =
    let few = few_points width pcb.npoints small in
    let u = run_length_encode-Undone (size_of width) pcb raw few in rw (u.encodes, u.form) u.decodes
bytes_decode-encode zlib bound laws width pcb sigbits raw nonempty small space =
    let u = sigbits_encode-Undone width pcb raw nonempty small in rw (u.encodes, u.form) u.decodes
bytes_decode-encode zlib bound laws width pcb zlib_of raw nonempty small space =
    let u = zlib_encode-Undone (size_of width) pcb raw zlib bound laws space (omega arith) in
    rw (u.encodes, u.form) u.decodes
