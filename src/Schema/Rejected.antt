-- ===== src/Schema/Rejected.antt =====
-- lib/pc_schema.c: a schema in which a dimension states a position that is out of range or taken.
use pointcloud.Common.{
  ℕ, ◌≤◌, ◌≡◌, ap, ◌∙◌, Bool, true, false, ◌⊎◌, inl, inr, List, [], ◌∷◌, ◌++◌, length, get_elem?,
  Option, none, some, ltb, Bool-cases, Option-cases, le→ltb,
}
use pointcloud.Common.Result.{ok, access, ◌>>=◌, bind_returned, ok_injective}
use pointcloud.Value.{Doubles}
use pointcloud.Schema.{
  Dimension, Hashtable, Schema, ndims, schema_get_dimension, schema_new, schema_set_dimension,
}
use pointcloud.Schema.Fields.{get_elem?-schema_get_dimension, schema_get_dimension_lt}
use pointcloud.Schema.Xyzm.{schema_is_valid}
use pointcloud.Schema.Xml.{
  Parser, Document, read_dimension, store_dimensions, read_schema, read_nodes, read_entries,
  read_document, keep_valid, roll_forward, schema_from_xml,
}
use pointcloud.Schema.Accepted.{Storing, new-Storing, store_dimensions-Storing}

access-some {ℓ} : {A : Type ℓ} {o : Option A} {a b : A} → access o ≡ ok a → a ≡ b → o ≡ some b
access-some {o = none} e h = cc
access-some {o = some x} e h = ap some (ok_injective e ∙ h)

module _ {ℓ} {D T : Type ℓ} (doubles : Doubles D) (parser : Parser D) (table : Hashtable T) where
  -- An element that is stored.
  stored_with :
      (element : List (List ℕ × List ℕ)) (elements : List (List (List ℕ × List ℕ)))
      (s t : Schema D T) (d : Dimension D)
      → read_dimension doubles parser element ≡ ok d
      → ltb d.position (ndims s) ≡ true
      → get_elem? s.dims d.position ≡ some none
      → schema_set_dimension table s d ≡ ok t
      → store_dimensions doubles parser table (element ∷ elements) s
        ≡ store_dimensions doubles parser table elements t
  unfolding store_dimensions
  stored_with element elements s t d read near free set = rw (read, ◌>>=◌, near, ◌>>=◌, free, set)

  store_dimensions-append :
      (before after : List (List (List ℕ × List ℕ))) (s s' : Schema D T)
      → store_dimensions doubles parser table before s ≡ ok (s', true)
      → store_dimensions doubles parser table (before ++ after) s
        ≡ store_dimensions doubles parser table after s'
  unfolding store_dimensions
  store_dimensions-append [] after s s' e =
      ap (λ (r : Schema D T × Bool). store_dimensions doubles parser table after r.0)
        (ok_injective e)
  store_dimensions-append (element ∷ before) after s s' e =
      let (d, read, rest) = bind_returned (read_dimension doubles parser element) _ e in
      elim (Bool-cases (ltb d.position (ndims s))) [
        | inr far ↦
            let x : false ≡ true =
              ap (λ (r : Schema D T × Bool). r.1) (ok_injective (rw far at rest)) in
            cc x
        | inl near ↦
            let (slot, found, stored) =
              bind_returned (access (get_elem? s.dims d.position)) _ (rw near at rest) in
            elim (Option-cases slot) [
              | inr (old, taken) ↦
                  let x : false ≡ true =
                    ap (λ (r : Schema D T × Bool). r.1) (ok_injective (rw taken at stored)) in
                  cc x
              | inl free ↦
                  let (t, set, more) =
                    bind_returned (schema_set_dimension table s d) _ (rw free at stored) in
                  stored_with element (before ++ after) s t d read near (access-some found free) set
                  ∙ store_dimensions-append before after t s' more
            ]
      ]

  -- The next element does not fit.
  stopped :
      (element : List (List ℕ × List ℕ)) (after : List (List (List ℕ × List ℕ))) (s : Schema D T)
      (d : Dimension D)
      → read_dimension doubles parser element ≡ ok d
      → (ndims s ≤ d.position)
        ⊎ ((old : Dimension D) × (schema_get_dimension s d.position ≡ some old))
      → store_dimensions doubles parser table (element ∷ after) s ≡ ok (s, false)
  unfolding store_dimensions
  stopped element after s d read (inl far) = rw (read, ◌>>=◌, le→ltb d.position (ndims s) far)
  stopped element after s d read (inr (old, taken)) =
      let found = get_elem?-schema_get_dimension s d.position old taken in
      let near = schema_get_dimension_lt s d.position old taken in
      rw (read, ◌>>=◌, near, ◌>>=◌, found)

  -- A schema is refused when a dimension states a position that is not below the number of
  -- dimensions, or one that a dimension before it has taken.
  pub schema_from_xml-refused :
      (xml_str : List ℕ) (document : Document) (before after : List (List (List ℕ × List ℕ)))
      (element : List (List ℕ × List ℕ)) (s : Schema D T) (d : Dimension D)
      → parser.parse (roll_forward xml_str) ≡ some document
      → document.dimensions ≡ some (some (before ++ (element ∷ after)))
      → store_dimensions doubles parser table before
          (schema_new table (length (before ++ (element ∷ after))))
        ≡ ok (s, true)
      → read_dimension doubles parser element ≡ ok d
      → (ndims s ≤ d.position)
        ⊎ ((old : Dimension D) × (schema_get_dimension s d.position ≡ some old))
      → schema_from_xml doubles parser table xml_str ≡ ok none
  unfolding schema_from_xml read_document read_nodes read_schema read_entries keep_valid
      schema_is_valid
  schema_from_xml-refused xml_str document before after element s d parsed found kept read misfit =
      rw (
        schema_from_xml,
        parsed,
        found,
        store_dimensions-append before (element ∷ after) new s kept,
        stopped element after s d read misfit,
        pointers.x,
      )
    where
      new : Schema D T
      new = schema_new table (length (before ++ (element ∷ after)))

      pointers : Storing {D = D} {T = T} s
      pointers =
          store_dimensions-Storing doubles parser table before new
            (new-Storing table (length (before ++ (element ∷ after)))) kept
