-- ===== src/Bytes/Serial/RoundTrip.antt =====
-- lib/pc_bytes.c: `pc_bytes_deserialize` on what `pc_bytes_serialize` writes.
use pointcloud.Common.{
  ℕ, ◌+◌, ◌%◌, ◌^◌, ◌<◌, ◌≤◌, ◌≡◌, refl, sym, ap, ◌∙◌, Bool, true, false, List, ◌∷◌, ◌++◌, length,
  take, drop, arith, length-append, length-take, take-append, take-length, drop-append,
  append_assoc, lt→ltb,
}
use pointcloud.Common.Result.{ok}
use pointcloud.Bytes.{Pcbytes, contents}
use pointcloud.Bytes.Valid.{slice_ok}
use pointcloud.Bytes.Words.{bytes_of, length-bytes_of, word_of-bytes_of}
use pointcloud.Bytes.Serial.{bytes_serialize, bytes_deserialize, serialized_size}
use pointcloud.Wkb.{wkb_get_int32, size_of_int32}

-- Four bytes of an integer are read back.
wkb_get_int32-bytes_of :
    (v : ℕ) (rest : List ℕ) → v < 2 ^ 32 → wkb_get_int32 (bytes_of 4 v ++ rest) false ≡ ok v
unfolding wkb_get_int32
wkb_get_int32-bytes_of v rest h =
    rw
      (
        slice_ok (bytes_of 4 v ++ rest) 0 4
            (omega (arith, length-append (bytes_of 4 v) rest, length-bytes_of 4 v)),
        rw (length-bytes_of 4 v) at (take-append (bytes_of 4 v) rest),
        word_of-bytes_of 4 v,
      )
      (ap ok (omega arith))

module _ (pcb before : Pcbytes) (rest : List ℕ) (dim_interpretation : ℕ)
    (allocated : pcb.size ≤ length pcb.bytes) (small : pcb.size < 2 ^ 31)
    (byte : pcb.compression < 256) where
  abbrev head : List ℕ
  head = pcb.compression ∷ bytes_of 4 pcb.size

  abbrev out : List ℕ
  out = pcb.compression ∷ (bytes_of 4 pcb.size ++ contents pcb)

  length-contents : length (contents pcb) ≡ pcb.size
  length-contents = omega (arith, length-take pcb.size pcb.bytes)

  length-out : length out ≡ 5 + pcb.size
  length-out = omega (
    arith,
    length-append (bytes_of 4 pcb.size) (contents pcb),
    length-bytes_of 4 pcb.size,
    length-contents,
  )

  small_size : size_of_int32 pcb.size ≡ pcb.size
  small_size = rw (lt→ltb pcb.size (2 ^ 31) small) refl

  serialized : bytes_serialize pcb ≡ ok (out, serialized_size pcb)
  unfolding bytes_serialize serialized_size
  serialized = rw (cut, small_size, slice_ok pcb.bytes 0 pcb.size (omega arith), code)
    where
      cut : pcb.size % 2 ^ 32 ≡ pcb.size
      cut = omega arith

      code : pcb.compression % 256 ≡ pcb.compression
      code = omega arith

  behind_head : drop 5 (out ++ rest) ≡ contents pcb ++ rest
  behind_head =
      ap (drop 4) (append_assoc (bytes_of 4 pcb.size) (contents pcb) rest)
      ∙ rw (length-bytes_of 4 pcb.size) at
          (drop-append (bytes_of 4 pcb.size) (contents pcb ++ rest))

  size_read : wkb_get_int32 (drop 1 (out ++ rest)) false ≡ ok pcb.size
  size_read =
      ap (λ t. wkb_get_int32 t false) (append_assoc (bytes_of 4 pcb.size) (contents pcb) rest)
      ∙ wkb_get_int32-bytes_of pcb.size (contents pcb ++ rest) (omega arith)

  contents_back : take pcb.size (contents pcb ++ rest) ≡ contents pcb
  contents_back = rw length-contents at (take-append (contents pcb) rest)

  -- Serializing a buffer of fewer than 2^31 bytes writes as many bytes as announced, and
  -- deserializing what is written, read-only or not and whatever follows it, gives the
  -- compression, the size and the contents back, with the interpretation of the given dimension
  -- and the number of points that the structure had before.
  pub bytes_deserialize-serialize :
      (readonly : Bool)
      → (written : List ℕ) × (n : ℕ) × (got : Pcbytes) × (bytes_serialize pcb ≡ ok (written, n))
        × (n ≡ serialized_size pcb)
        × (length written ≡ n)
        × (bytes_deserialize (written ++ rest) dim_interpretation before readonly false ≡ ok got)
        × (got.compression ≡ pcb.compression)
        × (got.size ≡ pcb.size)
        × (contents got ≡ contents pcb)
        × (got.interpretation ≡ dim_interpretation)
        × (got.npoints ≡ before.npoints)
  unfolding bytes_deserialize serialized_size
  bytes_deserialize-serialize true = (
    out,
    serialized_size pcb,
    record before {
      compression = pcb.compression;
      size = pcb.size;
      readonly = true;
      bytes = contents pcb ++ rest;
      interpretation = dim_interpretation;
    },
    serialized,
    refl,
    omega (arith, length-out),
    rw (size_read, small_size, behind_head),
    refl,
    refl,
    contents_back,
    refl,
    refl,
  )
  bytes_deserialize-serialize false = (
    out,
    serialized_size pcb,
    record before {
      compression = pcb.compression;
      size = pcb.size;
      readonly = false;
      bytes = contents pcb;
      interpretation = dim_interpretation;
    },
    serialized,
    refl,
    omega (arith, length-out),
    rw (
      size_read,
      small_size,
      slice_ok (out ++ rest) 5 pcb.size (omega (arith, length-append out rest, length-out)),
      behind_head,
      contents_back,
    ),
    refl,
    refl,
    twice,
    refl,
    refl,
  )
    where
      twice : take pcb.size (contents pcb) ≡ contents pcb
      twice =
          ap (λ (t : ℕ). take t (contents pcb)) (sym length-contents) ∙ take-length (contents pcb)
