-- ===== src/Dimensional/Counted.antt =====
-- lib/pc_dimstats.c: counting the buffers of a patch returns, and every dimension is recommended a
-- compression of integers or zlib.
use pointcloud.Common.{
  ℕ, suc, ◌+◌, ◌*◌, ◌^◌, ◌≤◌, ◌<◌, ◌≡◌, refl, ap, Bool, true, false, ◌==◌, if◌then◌else◌, List, [],
  ◌∷◌, length, Option, some, All, arith,
}
use pointcloud.Common.Result.{ok}
use pointcloud.Bytes.{Pcbytes, u32, dim_rle, dim_sigbits, dim_zlib}
use pointcloud.Bytes.Valid.{IsRaw}
use pointcloud.Bytes.Rle.Returns.{run_count_returns}
use pointcloud.Bytes.Sigbits.Returns.{sigbits_count_returns}
use pointcloud.Bytes.Sigbits.Lossless.{Width, size_of, few_points}
use pointcloud.Bytes.Codec.RoundTrip.{Compression, number, rle, sigbits, zlib_of}
use pointcloud.Value.{Doubles}
use pointcloud.Schema.{Dimension}
use pointcloud.Dimensional.Dimstats.{Dimstat, count_buffers, recommended, recommend}

-- An uncompressed buffer that the encoders take: at least one point, fewer than 2^32 bits.
pub record IsEncodable (bound : ℕ → ℕ) (pcb : Pcbytes) : Type 0 where
  pub width : Width
  pub raw : IsRaw (size_of width) pcb
  pub nonempty : 1 ≤ pcb.npoints
  pub small : 8 * size_of width * pcb.npoints < 2 ^ 32
  pub space : bound pcb.size ≤ 4 * pcb.size

pub count_buffers_returns :
    (bound : ℕ → ℕ) (stats : List Dimstat) (buffers : List Pcbytes)
    → length stats ≡ length buffers
    → All (IsEncodable bound) buffers
    → (counted : List Dimstat) × (count_buffers stats buffers ≡ ok counted)
      × (length counted ≡ length stats)
unfolding count_buffers
count_buffers_returns bound [] buffers n all = ([], refl, refl)
count_buffers_returns bound (stat ∷ stats) [] n all = absurd (omega arith)
count_buffers_returns bound (stat ∷ stats) (pcb ∷ buffers) n (e, all) =
    let (runs, counted) =
      run_count_returns (size_of e.width) pcb e.raw e.nonempty
        (omega (arith, few_points e.width pcb.npoints e.small)) in
    let (bits, found) = sigbits_count_returns e.width pcb e.raw e.nonempty e.small in
    let (rest, returned, same) = count_buffers_returns bound stats buffers (omega arith) all in
    (
      record stat {
        total_runs = u32 (stat.total_runs + runs);
        total_commonbits = u32 (stat.total_commonbits + bits);
      }
          ∷ rest,
      rw (counted, found, returned),
      ap suc same,
    )

-- A compression that the encoders know.
abbrev pub HasCompression : Dimstat → Type 0
HasCompression stat = (c : Compression) × (stat.recommended_compression ≡ number c)

abbrev pub IsThere {ℓ} : {A : Type ℓ} → Option A → Type ℓ
IsThere {A = A} slot = (a : A) × (slot ≡ some a)

chosen :
    (a b c : Bool)
    → (x : Compression) × ((if a
          then dim_zlib
          else if b
          then dim_rle
          else if c
          then dim_sigbits
          else dim_zlib)
        ≡ number x)
chosen true b c = (zlib_of, refl)
chosen false true c = (rle, refl)
chosen false false true = (sigbits, refl)
chosen false false false = (zlib_of, refl)

module _ {ℓ} {D : Type ℓ} (doubles : Doubles D) where
  recommended-Compression :
      (total_points total_patches : ℕ) (dim : Dimension D) (stat : Dimstat)
      → (c : Compression) × (recommended doubles total_points total_patches dim stat ≡ number c)
  unfolding recommended
  recommended-Compression total_points total_patches dim stat = chosen _ _ _

  pub recommend_returns :
      (total_points total_patches : ℕ) (dims : List (Option (Dimension D))) (stats : List Dimstat)
      → 1 ≤ total_patches
      → length stats ≡ length dims
      → All IsThere dims
      → (stats' : List Dimstat) × (recommend doubles total_points total_patches dims stats
          ≡ ok stats')
        × (length stats' ≡ length stats)
        × All HasCompression stats'
  unfolding recommend
  recommend_returns total_points total_patches dims [] pos n all = ([], refl, refl, tt)
  recommend_returns total_points total_patches [] (stat ∷ stats) pos n all = absurd (omega arith)
  recommend_returns total_points total_patches (slot ∷ dims) (stat ∷ stats) pos n ((d, e), all) =
      let (rest, returned, same, known) =
        recommend_returns total_points total_patches dims stats pos (omega arith) all in
      let some_patches : (total_patches == 0) ≡ false = ground arith in
      (
        record stat {
          recommended_compression = recommended doubles total_points total_patches d stat;
        }
            ∷ rest,
        rw (e, some_patches, returned),
        ap suc same,
        (recommended-Compression total_points total_patches d stat, known),
      )
