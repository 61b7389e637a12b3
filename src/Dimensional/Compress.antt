-- ===== src/Dimensional/Compress.antt =====
-- lib/pc_patch_dimensional.c: a dimensional patch is compressed without a loss.
use pointcloud.Common.{
  ◌+◌, ◌<◌, ◌≤◌, ◌^◌, ◌≡◌, refl, sym, ap, ◌∙◌, false, map, length, All, arith, length-replicate,
  Bool-cases, inl, inr, take_all, ℕ, ◌%◌, ltb, if◌then◌else◌, List, [], ◌∷◌, Option, none, some,
}
use pointcloud.Common.Result.{Result, ok, fail, out_of_bounds, ◌>>=◌, bind_returned}
use pointcloud.Bytes.{Pcbytes, slice}
use pointcloud.Bytes.Codec.{Zlib, ZlibLaws, bytes_encode}
use pointcloud.Value.{Doubles}
use pointcloud.Schema.{Dimension, Schema, ndims}
use pointcloud.Point.{Point}
use pointcloud.Bytes.Codec.RoundTrip.{bytes_decode-encode}
use pointcloud.Bytes.Valid.{slice_ok}
use pointcloud.Stats.{Stats, stats_clone}
use pointcloud.Dimensional.{PatchDimensional, decode_buffers, dimensional_decompress}
use pointcloud.Dimensional.Counted.{
  IsEncodable, HasCompression, IsThere, count_buffers_returns, recommend_returns,
}
use pointcloud.Dimensional.Dimstats.{Dimstat, Dimstats, dimstats_make, dimstats_update}

-- `PCDIMSTATS_MIN_SAMPLE`
abbrev pub dimstats_min_sample : ℕ
dimstats_min_sample = 10000

module _ {ℓ} {D : Type ℓ} (zlib : Zlib) where
  unfoldable pub encode_buffers :
      List (Option (Dimension D)) → List Dimstat → List Pcbytes → Result (List Pcbytes)
  encode_buffers [] stats buffers = ok []
  encode_buffers (dim ∷ dims) [] buffers = fail out_of_bounds
  encode_buffers (dim ∷ dims) (stat ∷ stats) [] = fail out_of_bounds
  encode_buffers (dim ∷ dims) (stat ∷ stats) (pcb ∷ buffers) = do
    packed ← bytes_encode zlib pcb stat.recommended_compression
    rest ← encode_buffers dims stats buffers
    ok (packed ∷ rest)

module _ {ℓ} {D T : Type ℓ} (doubles : Doubles D) where
  -- The statistics of the caller, with the patch counted while they are sampled.
  unfoldable pub sampled : PatchDimensional D T → Dimstats → Result Dimstats
  unfolding dimstats_update
  sampled pdl pds =
      if ltb pds.total_points dimstats_min_sample
      then dimstats_update doubles pds pdl.schema pdl.npoints pdl.buffers
      else ok pds

module _ {ℓ} {D T : Type ℓ} where
  -- The statistics that are passed, or new ones.
  unfoldable pub given_or_new : Schema D T → Option Dimstats → Dimstats
  unfolding dimstats_make
  given_or_new schema none = dimstats_make schema
  given_or_new schema (some pds) = pds

module _ {ℓ} {D T : Type ℓ} (doubles : Doubles D) (zlib : Zlib) where
  -- The compressed patch, and the statistics as the caller has them afterwards.
  unfoldable pub dimensional_compress :
      PatchDimensional D T → Option Dimstats → Result (PatchDimensional D T × Dimstats)
  unfolding sampled given_or_new encode_buffers stats_clone
  dimensional_compress pdl pds_in = do
    pds ← sampled doubles pdl (given_or_new pdl.schema pds_in)
    stats ← stats_clone pdl.stats
    buffers ← encode_buffers zlib pdl.schema.dims pds.stats pdl.buffers
    ok (record pdl { stats = stats; buffers = buffers }, pds)

-- Statistics in memory of their own, as long as a point.
pub record IsOwn {ℓ} {D T : Type ℓ} (pt : Point D T) : Type 0 where
  pub writable : pt.readonly ≡ false
  pub allocated : length pt.data_bytes ≡ pt.schema.size

abbrev pub OwnStats {ℓ} : {D T : Type ℓ} → Option (Stats D T) → Type 0
OwnStats none = Unit
OwnStats (some s) = IsOwn s.min × IsOwn s.max × IsOwn s.avg

-- Statistics that a patch of the schema can be compressed with.
pub record IsFor {ℓ} {D T : Type ℓ} (schema : Schema D T) (pds : Dimstats) : Type 0 where
  pub each : length pds.stats ≡ ndims schema
  pub few : pds.total_patches + 1 < 2 ^ 32
  pub known : dimstats_min_sample ≤ pds.total_points → All HasCompression pds.stats

abbrev pub released : Pcbytes → Pcbytes
released pcb = record pcb { readonly = false }

module _ {ℓ} {D T : Type ℓ} where
  slice-IsOwn :
      (pt : Point D T) → IsOwn pt → slice pt.data_bytes 0 pt.schema.size ≡ ok pt.data_bytes
  slice-IsOwn pt own =
      slice_ok pt.data_bytes 0 pt.schema.size (omega (arith, own.allocated))
      ∙ ap ok (take_all pt.schema.size pt.data_bytes (omega (arith, own.allocated)))

  copy-IsOwn : (pt : Point D T) → IsOwn pt → record pt { readonly = false } ≡ pt
  copy-IsOwn pt own = ap (λ b. record pt { readonly = b }) (sym own.writable)

  pub stats_clone-OwnStats :
      (stats : Option (Stats D T)) → OwnStats stats → stats_clone stats ≡ ok stats
  unfolding stats_clone
  stats_clone-OwnStats none own = refl
  stats_clone-OwnStats (some s) (min, max, avg) =
      rw (slice-IsOwn s.min min, slice-IsOwn s.max max, slice-IsOwn s.avg avg)
        (ap
            (λ (a : Point D T). ok (
              some (record {
                min = a;
                max = record s.max { readonly = false };
                avg = record s.avg { readonly = false };
              })))
            (copy-IsOwn s.min min)
          ∙ ap
              (λ (a : Point D T).
                ok (some (record s { max = a; avg = record s.avg { readonly = false } })))
              (copy-IsOwn s.max max)
          ∙ ap (λ (a : Point D T). ok (some (record s { avg = a }))) (copy-IsOwn s.avg avg))

  given_or_new-IsFor :
      (schema : Schema D T) (pds_in : Option Dimstats)
      → ((pds : Dimstats) → pds_in ≡ some pds → IsFor schema pds)
      → IsFor schema (given_or_new schema pds_in)
  unfolding given_or_new
  given_or_new-IsFor schema none h = record {
    each = length-replicate (ndims schema) _;
    few = omega arith;
    known = λ many. absurd (omega arith);
  }
  given_or_new-IsFor schema (some pds) h = h pds refl

module _ {ℓ} {D : Type ℓ} (zlib : Zlib) (bound : ℕ → ℕ) (laws : ZlibLaws zlib bound) where
  encode_buffers_undone :
      (dims : List (Option (Dimension D))) (stats : List Dimstat) (buffers : List Pcbytes)
      → length stats ≡ length dims
      → length buffers ≡ length dims
      → All HasCompression stats
      → All (IsEncodable bound) buffers
      → (packed : List Pcbytes) × (encode_buffers zlib dims stats buffers ≡ ok packed)
        × (decode_buffers zlib dims packed ≡ ok (map released buffers))
  unfolding encode_buffers decode_buffers
  encode_buffers_undone [] stats [] n m known all = ([], refl, refl)
  encode_buffers_undone [] stats (pcb ∷ buffers) n m known all = absurd (omega arith)
  encode_buffers_undone (dim ∷ dims) [] buffers n m known all = absurd (omega arith)
  encode_buffers_undone (dim ∷ dims) (stat ∷ stats) [] n m known all = absurd (omega arith)
  encode_buffers_undone (dim ∷ dims) (stat ∷ stats) (pcb ∷ buffers) n m ((c, e), known) (x, all) =
      let (out, encoded, decoded) =
        bind_returned (bytes_encode zlib pcb _) _
          (bytes_decode-encode zlib bound laws x.width pcb c x.raw x.nonempty x.small x.space) in
      let (rest, packed, restored) =
        encode_buffers_undone dims stats buffers (omega arith) (omega arith) known all in
      (out ∷ rest, rw (e, encoded, packed), rw (decoded, restored))

module _ {ℓ} {D T : Type ℓ} (doubles : Doubles D) where
  sampled_returns :
      (bound : ℕ → ℕ) (pdl : PatchDimensional D T) (pds : Dimstats)
      → IsFor pdl.schema pds
      → length pdl.buffers ≡ ndims pdl.schema
      → All IsThere pdl.schema.dims
      → All (IsEncodable bound) pdl.buffers
      → (pds' : Dimstats) × (sampled doubles pdl pds ≡ ok pds')
        × (length pds'.stats ≡ ndims pdl.schema)
        × All HasCompression pds'.stats
  unfolding sampled dimstats_update
  sampled_returns bound pdl pds is_for n there all =
      elim (Bool-cases (ltb pds.total_points dimstats_min_sample)) [
        | inl few ↦
            let (counted, returned, same) =
              count_buffers_returns bound pds.stats pdl.buffers (is_for.each ∙ sym n) all in
            let (stats, chosen, long, known) =
              recommend_returns doubles ((pds.total_points + pdl.npoints) % 2 ^ 32)
                ((pds.total_patches + 1) % 2 ^ 32) pdl.schema.dims counted
                (omega (arith, is_for.few)) (same ∙ is_for.each) there in
            (
              record pds {
                total_points = (pds.total_points + pdl.npoints) % 2 ^ 32;
                total_patches = (pds.total_patches + 1) % 2 ^ 32;
                stats = stats;
              },
              rw (few, returned, chosen),
              long ∙ same ∙ is_for.each,
              known,
            )
        | inr many ↦ (pds, rw many, is_for.each, is_for.known (ground arith))
      ]

module _ {ℓ} {D T : Type ℓ} (doubles : Doubles D) (zlib : Zlib) (bound : ℕ → ℕ)
    (laws : ZlibLaws zlib bound) where
  -- A dimensional patch with an encodable buffer for each dimension is compressed, with statistics
  -- for its schema or with none, and decompressing gives the patch back, with its buffers no longer
  -- read-only. The statistics that are left recommend a compression for every dimension. The
  -- statistics of the patch are in memory of their own and as long as a point, and zlib's streams
  -- fit in four times the size of a buffer.
  pub dimensional_decompress-compress :
      (pdl : PatchDimensional D T) (pds_in : Option Dimstats)
      → ((pds : Dimstats) → pds_in ≡ some pds → IsFor pdl.schema pds)
      → length pdl.buffers ≡ ndims pdl.schema
      → All IsThere pdl.schema.dims
      → All (IsEncodable bound) pdl.buffers
      → OwnStats pdl.stats
      → (packed : List Pcbytes) × (pds : Dimstats) × (dimensional_compress doubles zlib pdl pds_in
          ≡ ok (record pdl { buffers = packed }, pds))
        × (length pds.stats ≡ ndims pdl.schema)
        × All HasCompression pds.stats
        × (dimensional_decompress zlib (record pdl { buffers = packed })
            ≡ ok (record pdl { buffers = map released pdl.buffers }))
  unfolding dimensional_compress dimensional_decompress
  dimensional_decompress-compress pdl pds_in given n there all own =
      let is_for = given_or_new-IsFor pdl.schema pds_in given in
      let (pds, counted, long, known) =
        sampled_returns doubles bound pdl (given_or_new pdl.schema pds_in) is_for n there all in
      let (packed, encoded, decoded) =
        encode_buffers_undone zlib bound laws pdl.schema.dims pds.stats pdl.buffers long n known
          all in
      let cloned = stats_clone-OwnStats pdl.stats own in
      (packed, pds, rw (counted, cloned, encoded), long, known, rw (cloned, decoded))
