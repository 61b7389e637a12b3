-- ===== src/Schema/Accepted.antt =====
-- lib/pc_schema.c: what a schema is that was read from XML and found to be valid.
use mathlib.Core.Path.{subst}
use pointcloud.Common.{
  ℕ, zero, suc, ◌^◌, ◌<◌, ◌≡◌, refl, sym, ap, ◌∙◌, Bool, true, false, ◌⊎◌, List, [], ◌∷◌, length,
  replicate, get_elem?, set, Option, none, some, arith, inl, inr, Bool-cases, Option-cases, ltb,
}
use pointcloud.Common.Result.{
  ok, fail, undefined, access, bind_returned, ok_injective, some_injective,
}
use pointcloud.Text.{codes, same_text}
use pointcloud.Value.{Doubles}
use pointcloud.Schema.{
  Dimension, Hashtable, Schema, ndims, place, schema_calculate_byteoffsets, schema_set_dimension,
  schema_new,
}
use pointcloud.Schema.Offsets.{
  AllKnown, total_width, laid_out, schema_calculate_byteoffsets-laid_out,
}
use pointcloud.Schema.Fields.{IsLaid, calculated-IsLaid}
use pointcloud.Schema.Clone.{Positioned}
use pointcloud.Schema.Compare.{followed}
use pointcloud.Schema.Xyzm.{schema_check_xyzm, schema_is_valid}
use pointcloud.Schema.Xml.{
  Parser, Metadata, read_dimension, store_dimensions, read_metadata, read_nodes, read_schema,
  read_entries, roll_forward, Document, read_document, compression_number, keep_valid,
  schema_from_xml,
}
use pointcloud.Schema.Kept.{place-Kept, Kept-Positioned, Kept-AllKnown, length-Kept, Positioned-set}
use pointcloud.Schema.Coordinates.{Coordinates, check_xyzm_loop-Coordinates}

-- A schema while its dimensions are being stored.
pub record Storing {ℓ} {D T : Type ℓ} (s : Schema D T) : Type ℓ where
  pub positioned : Positioned 0 s.dims
  pub x : s.xdim ≡ none
  pub y : s.ydim ≡ none
  pub z : s.zdim ≡ none
  pub m : s.mdim ≡ none

module _ {ℓ} {D T : Type ℓ} where
  schema_calculate_byteoffsets-Storing :
      (s : Schema D T) {s' : Schema D T}
      → Storing s
      → schema_calculate_byteoffsets s ≡ ok s'
      → Storing s'
  unfolding schema_calculate_byteoffsets
  schema_calculate_byteoffsets-Storing s h e =
      let (placed, p, same) = bind_returned (place 0 s.dims) _ e in
      subst Storing (ok_injective same) (record {
        positioned = Kept-Positioned 0 s.dims placed.0 (place-Kept 0 s.dims p) h.positioned;
        x = h.x;
        y = h.y;
        z = h.z;
        m = h.m;
      })

  schema_calculate_byteoffsets-IsLaid :
      (s : Schema D T) {s' : Schema D T}
      → schema_calculate_byteoffsets s ≡ ok s'
      → AllKnown s'.dims
      → ndims s' < 2 ^ 29
      → IsLaid s'
  unfolding schema_calculate_byteoffsets
  schema_calculate_byteoffsets-IsLaid s {s'} e k h =
      let (placed, p, same) = bind_returned (place 0 s.dims) _ e in
      let kept = place-Kept 0 s.dims p in
      let dims_eq : placed.0 ≡ s'.dims = ap (λ (r : Schema D T). r.dims) (ok_injective same) in
      let known = Kept-AllKnown s.dims placed.0 kept (subst AllKnown (sym dims_eq) k) in
      let few : ndims s < 2 ^ 29 =
        omega (arith, length-Kept s.dims placed.0 kept, ap length dims_eq) in
      subst IsLaid (ok_injective (sym (schema_calculate_byteoffsets-laid_out s known few) ∙ e))
        (calculated-IsLaid s known few)

module _ {ℓ} {D T : Type ℓ} (table : Hashtable T) where
  schema_set_dimension-Storing :
      (s : Schema D T) (d : Dimension D) {s' : Schema D T}
      → Storing s
      → schema_set_dimension table s d ≡ ok s'
      → Storing s'
  unfolding schema_set_dimension
  schema_set_dimension-Storing s d h e =
      let (slot, found, rest) = bind_returned (access (get_elem? s.dims d.position)) _ e in
      schema_calculate_byteoffsets-Storing
        (record s {
          dims = set s.dims d.position (some d);
          namehash = elim d.name [
            | none ↦ s.namehash
            | some name ↦ table.hashtable_insert s.namehash name d.position
          ];
        })
        (record {
          positioned = Positioned-set 0 s.dims d.position d h.positioned (omega arith);
          x = h.x;
          y = h.y;
          z = h.z;
          m = h.m;
        })
        rest

module _ {ℓ} {D T : Type ℓ} (doubles : Doubles D) (parser : Parser D) (table : Hashtable T) where
  pub store_dimensions-Storing :
      (elements : List (List (List ℕ × List ℕ))) (s : Schema D T) {r : Schema D T × Bool}
      → Storing s
      → store_dimensions doubles parser table elements s ≡ ok r
      → Storing r.0
  unfolding store_dimensions
  store_dimensions-Storing [] s h e =
      subst (λ (r : Schema D T × Bool). Storing r.0) (ok_injective e) h
  store_dimensions-Storing (element ∷ elements) s h e =
      let (d, read, rest) = bind_returned (read_dimension doubles parser element) _ e in
      elim (Bool-cases (ltb d.position (ndims s))) [
        | inr far ↦ subst (λ (r : Schema D T × Bool). Storing r.0) (ok_injective (rw far at rest)) h
        | inl near ↦
            let (slot, found, stored) =
              bind_returned (access (get_elem? s.dims d.position)) _ (rw near at rest) in
            elim (Option-cases slot) [
              | inr (old, taken) ↦
                  subst (λ (r : Schema D T × Bool). Storing r.0) (ok_injective (rw taken at stored))
                    h
              | inl free ↦
                  let (s', set, more) =
                    bind_returned (schema_set_dimension table s d) _ (rw free at stored) in
                  store_dimensions-Storing elements s'
                    (schema_set_dimension-Storing table s d h set) more
            ]
      ]

module _ {ℓ} {D T : Type ℓ} where
  -- Reading the metadata changes nothing but the compression.
  read_metadata-compression :
      (entries : List Metadata) (s : Schema D T) {r : Option (Schema D T)}
      → read_metadata entries (some s) ≡ ok r
      → (c : ℕ) × (r ≡ some (record s { compression = c }))
  unfolding read_metadata
  read_metadata-compression [] s e = (s.compression, sym (ok_injective e))
  read_metadata-compression (entry ∷ entries) s e =
      let (name, named, rest) = bind_returned (followed entry.name) _ e in
      elim (Bool-cases (same_text name (codes "compression"))) [
        | inr other ↦ read_metadata-compression entries s (rw other at rest)
        | inl same ↦
            let compressed : Schema D T = record s {
              compression = compression_number entry.content;
            } in
            let (c, eq) = read_metadata-compression entries compressed (rw same at rest) in (c, eq)
      ]

  read_metadata-none :
      (entries : List Metadata) {r : Option (Schema D T)}
      → read_metadata entries none ≡ ok r
      → r ≡ none
  unfolding read_metadata
  read_metadata-none [] e = sym (ok_injective e)
  read_metadata-none (entry ∷ entries) e =
      let (name, named, rest) = bind_returned (followed entry.name) _ e in
      elim (Bool-cases (same_text name (codes "compression"))) [
        | inr other ↦ read_metadata-none entries (rw other at rest)
        | inl same ↦ let x : fail undefined ≡ ok _ = rw same at rest in cc x
      ]

pub Positioned-nones {ℓ} :
    (D : Type ℓ) (i n : ℕ) → Positioned i (replicate {A = Option (Dimension D)} n none)
Positioned-nones D i zero = tt
Positioned-nones D i (suc n) = Positioned-nones D (suc i) n

-- A schema whose reading came to its end.
record Finished {ℓ} {D T : Type ℓ} (s : Schema D T) : Type ℓ where
  laid : AllKnown s.dims → ndims s < 2 ^ 29 → IsLaid s
  pub positioned : Positioned 0 s.dims
  coordinates : Coordinates s

module _ {ℓ} {D T : Type ℓ} where
  -- The outcome of reading dimensions: stopped, without an X coordinate, or done.
  abbrev Reading : Option (Schema D T) × Bool → Type ℓ
  Reading (none, done) = Unit {ℓ}
  Reading (some s, false) = Unit {ℓ} × (s.xdim ≡ none)
  Reading (some s, true) = Finished s

  abbrev Outcome : Option (Schema D T) → Type ℓ
  Outcome none = Unit {ℓ}
  Outcome (some s) = (s.xdim ≡ none) ⊎ Finished s

  IsLaid-same : (s s' : Schema D T) → s'.dims ≡ s.dims → s'.size ≡ s.size → IsLaid s → IsLaid s'
  IsLaid-same s s' d z laid = record {
    known = subst AllKnown (sym d) laid.known;
    few = omega (arith, ap length d, laid.few);
    placed = subst (λ t. laid_out 0 t ≡ t) (sym d) laid.placed;
    sized = z ∙ laid.sized ∙ ap total_width (sym d);
  }

  checked-Finished :
      (s placed s' : Schema D T)
      → Storing s
      → schema_calculate_byteoffsets s ≡ ok placed
      → schema_check_xyzm placed ≡ ok s'
      → Finished s'
  unfolding schema_check_xyzm
  checked-Finished s placed s' h calculated checked =
      let storing = schema_calculate_byteoffsets-Storing s h calculated in
      let start : Coordinates placed = record {
        x = rw storing.x tt;
        y = rw storing.y tt;
        z = rw storing.z tt;
        m = rw storing.m tt;
      } in
      let (c, kept, sized) = check_xyzm_loop-Coordinates [] placed.dims placed refl start checked in
      record {
        laid = λ known few. IsLaid-same placed s' kept sized (
            schema_calculate_byteoffsets-IsLaid s calculated (subst AllKnown kept known)
              (omega (arith, ap length kept)));
        positioned = subst (Positioned 0) (sym kept) storing.positioned;
        coordinates = c;
      }

pub new-Storing {ℓ} :
    {D T : Type ℓ} (table : Hashtable T) (n : ℕ) → Storing {D = D} {T = T} (schema_new table n)
unfolding schema_new
new-Storing {D = D} table n = record {
  positioned = Positioned-nones D 0 n;
  x = refl;
  y = refl;
  z = refl;
  m = refl;
}

module _ {ℓ} {D T : Type ℓ} (doubles : Doubles D) (parser : Parser D) (table : Hashtable T) where
  read_schema-Reading :
      (elements : List (List (List ℕ × List ℕ))) {r : Option (Schema D T) × Bool}
      → read_schema doubles parser table elements ≡ ok r
      → Reading r
  unfolding read_schema schema_new
  read_schema-Reading elements {r} e =
      let ((s, done), stored, rest) =
        bind_returned
          (store_dimensions doubles parser table elements (schema_new table (length elements))) _
          e in
      let storing =
        store_dimensions-Storing doubles parser table elements _
          (new-Storing table (length elements)) stored in
      elim (Bool-cases done) [
        | inr stopped ↦ subst Reading (ok_injective (rw stopped at rest)) (tt, storing.x)
        | inl all ↦
            let (placed, calculated, more) =
              bind_returned (schema_calculate_byteoffsets s) _ (rw all at rest) in
            let (s', checked, same) = bind_returned (schema_check_xyzm placed) _ more in
            subst Reading (ok_injective same)
              (checked-Finished s placed s' storing calculated checked)
      ]

  read_nodes-Reading :
      (nodes : Option (List (List (List ℕ × List ℕ)))) {r : Option (Schema D T) × Bool}
      → read_nodes doubles parser table nodes ≡ ok r
      → Reading r
  unfolding read_nodes
  read_nodes-Reading none e = subst Reading (ok_injective e) tt
  read_nodes-Reading (some elements) e = read_schema-Reading elements e

module _ {ℓ} {D T : Type ℓ} where
  Finished-compression :
      (s : Schema D T) (c : ℕ) → Finished s → Finished (record s { compression = c })
  Finished-compression s c f = record {
    laid = λ known few. IsLaid-same s (record s { compression = c }) refl refl (f.laid known few);
    positioned = f.positioned;
    coordinates = record {
      x = f.coordinates.x;
      y = f.coordinates.y;
      z = f.coordinates.z;
      m = f.coordinates.m;
    };
  }

  Outcome-stopped : (o : Option (Schema D T)) → Reading (o, false) → Outcome o
  Outcome-stopped none h = tt
  Outcome-stopped (some s) h = inl h.1

  Outcome-done : (o : Option (Schema D T)) → Reading (o, true) → Outcome o
  Outcome-done none h = tt
  Outcome-done (some s) h = inr h

  read_metadata-Outcome :
      (entries : List Metadata) (o : Option (Schema D T)) {r : Option (Schema D T)}
      → Reading (o, true)
      → read_metadata entries o ≡ ok r
      → Outcome r
  read_metadata-Outcome entries none h e = subst Outcome (sym (read_metadata-none entries e)) tt
  read_metadata-Outcome entries (some s) h e =
      let (c, same) = read_metadata-compression entries s e in
      subst Outcome (sym same) (inr (Finished-compression s c h))

  read_entries-Outcome :
      (metadata : Option (Option (List Metadata))) (found : Option (Schema D T) × Bool)
      {o : Option (Schema D T)}
      → Reading found
      → read_entries metadata found ≡ ok o
      → Outcome o
  unfolding read_entries
  read_entries-Outcome none (s, false) h e = subst Outcome (ok_injective e) (Outcome-stopped s h)
  read_entries-Outcome (some m) (s, false) h e =
      subst Outcome (ok_injective e) (Outcome-stopped s h)
  read_entries-Outcome none (s, true) h e = subst Outcome (ok_injective e) (Outcome-done s h)
  read_entries-Outcome (some none) (s, true) h e = subst Outcome (ok_injective e) (Outcome-done s h)
  read_entries-Outcome (some (some entries)) (s, true) h e = read_metadata-Outcome entries s h e

  keep_valid-some :
      (o : Option (Schema D T)) {s : Schema D T}
      → keep_valid o ≡ some s
      → (o ≡ some s) × (schema_is_valid s ≡ true)
  unfolding keep_valid
  keep_valid-some none e = cc
  keep_valid-some (some t) e = elim (Bool-cases (schema_is_valid t)) [
    | inl valid ↦
        let same : t ≡ _ = some_injective (rw valid at e) in
        (ap some same, subst (λ u. schema_is_valid u ≡ true) same valid)
    | inr invalid ↦ let x : none ≡ some _ = rw invalid at e in cc x
  ]

  Finished-valid : (s : Schema D T) → Outcome (some s) → schema_is_valid s ≡ true → Finished s
  unfolding schema_is_valid
  Finished-valid s (inr f) v = f
  Finished-valid s (inl missing) v = let x : false ≡ true = rw missing at v in cc x

-- What is known of a schema that was read.
pub record Accepted {ℓ} {D T : Type ℓ} (s : Schema D T) : Type ℓ where
  pub laid : IsLaid s
  pub positioned : Positioned 0 s.dims
  pub coordinates : Coordinates s
  pub valid : schema_is_valid s ≡ true

module _ {ℓ} {D T : Type ℓ} (doubles : Doubles D) (parser : Parser D) (table : Hashtable T) where
  read_document-Outcome :
      (document : Document) {o : Option (Schema D T)}
      → read_document doubles parser table document ≡ ok o
      → Outcome o
  unfolding read_document
  read_document-Outcome document {o} e = elim (Option-cases document.dimensions) [
    | inl failed ↦ subst Outcome (ok_injective (rw failed at e)) tt
    | inr (nodes, evaluated) ↦
        let (found, read, rest) =
          bind_returned (read_nodes doubles parser table nodes) _ (rw evaluated at e) in
        read_entries-Outcome document.metadata found
          (read_nodes-Reading doubles parser table nodes read) rest
  ]

  -- A schema that is accepted has a dimension at every position, each at the position that it
  -- states, and an X and a Y coordinate; each coordinate it has is a dimension of a name that
  -- stands for it. The fields of a point follow each other in the order of the positions, and the
  -- size of a point is their sum. The schema has fewer than 2^29 dimensions, of interpretations
  -- that are known.
  pub schema_from_xml-Accepted :
      (xml_str : List ℕ) (s : Schema D T)
      → schema_from_xml doubles parser table xml_str ≡ ok (some s)
      → AllKnown s.dims
      → ndims s < 2 ^ 29
      → Accepted s
  unfolding schema_from_xml
  schema_from_xml-Accepted xml_str s e known few =
      elim (Option-cases (parser.parse (roll_forward xml_str))) [
        | inl failed ↦ let x : ok none ≡ ok (some s) = rw (failed, schema_from_xml) at e in cc x
        | inr (document, parsed) ↦
            let (o, read, kept) =
              bind_returned (read_document doubles parser table document) _
                (rw (parsed, schema_from_xml) at e) in
            let (found, valid) = keep_valid-some o (ok_injective kept) in
            let f =
              Finished-valid s (subst Outcome found (read_document-Outcome document read)) valid in
            record {
              laid = f.laid known few;
              positioned = f.positioned;
              coordinates = f.coordinates;
              valid = valid;
            }
      ]
