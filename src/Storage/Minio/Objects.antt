-- ===== src/Storage/Minio/Objects.antt =====
-- Events as objects of a bucket.
use text.Mathlib.TextLemmas.{append_cancel_right}
use log_morph.Common.{
  String, ◌≡◌, refl, sym, ◌∙◌, true, false, Bool-cases, inl, inr, Option, none, some, Error, Result,
  ok, err, ◌==◌, eq_iff, eq_refl, if◌then◌else◌,
}
use log_morph.Models.{RawEvent, EventJson, RoundTrips}
use log_morph.Storage.Minio.{
  ObjectStore, MinioRawStore, object_name, put_data, storing_error, minio_put, minio_get,
}

-- An object store as its documentation describes it: what was put last under a name is what a later
-- call gets, and other names are as before.
pub record IsObjectStore {S : Type 0} (c : ObjectStore S) : Type 0 where
  pub objects : S → (bucket name : String) → Option String
  pub put_stores :
      (bucket name content : String) (s : S)
      → (c.put_object bucket name content s).0 ≡ none
      → (other : String)
      → objects (c.put_object bucket name content s).1 bucket other
        ≡ (if name == other then some content else objects s bucket other)
  pub get_reads :
      (bucket name : String) (s : S) (content : String)
      → objects s bucket name ≡ some content
      → (c.get_object bucket name s).0 ≡ ok (ok content)

module _ {S : Type 0} (json : EventJson) (m : MinioRawStore S) (laws : IsObjectStore m.client)
    (trips : RoundTrips json) where
  stored : (o : Option Error) → storing_error json m o ≡ none → o ≡ none
  stored none h = refl
  stored (some e) h = cc

  -- what a successful `Put` has put
  put_data-stored :
      (name : String) (r : Result String) (s : S)
      → (put_data json m name r s).0 ≡ none
      → (content : String) × (r ≡ ok content)
        × ((other : String)
            → laws.objects (put_data json m name r s).1 m.bucket other
              ≡ (if name == other then some content else laws.objects s m.bucket other))
  put_data-stored name (err e) s h = cc
  put_data-stored name (ok content) s h =
      (content, refl, laws.put_stores m.bucket name content s (stored _ h))

  minio_put-stored :
      (e : RawEvent) (s : S)
      → (minio_put json m e s).0 ≡ none
      → (content : String) × (json.marshal e ≡ ok content)
        × ((other : String)
            → laws.objects (minio_put json m e s).1 m.bucket other ≡ (
                if object_name e.event_id == other
                then some content
                else laws.objects s m.bucket other))
  unfolding minio_put
  minio_put-stored e s h = elim (Bool-cases (e.event_id == "")) [
    | inl blank ↦ absurd (refused (rw blank at h))
    | inr filled ↦
        rw filled (put_data-stored (object_name e.event_id) (json.marshal e) s (rw filled at h))
  ]
    where
      refused : {x : Error} → some x ≡ none → ⊥
      refused same = cc

  object_name-eq : (i j : String) → (object_name i == object_name j) ≡ (i == j)
  object_name-eq i j = elim (Bool-cases (i == j)) [
    | inl same ↦ rw ((eq_iff i j).0 same) (eq_refl (object_name j) ∙ sym (eq_refl j))
    | inr differ ↦ elim (Bool-cases (object_name i == object_name j)) [
      | inr apart ↦ apart ∙ sym differ
      | inl equal ↦ absurd (
          clash
            (sym differ ∙ (eq_iff i j).1 (append_cancel_right i j ".json" ((eq_iff _ _).0 equal))))
    ]
  ]
    where
      clash : false ≡ true → ⊥
      clash same = cc

  -- the event that is archived under an id, if there is an object for it
  abbrev pub archived : S → String → Option String
  archived s id = laws.objects s m.bucket (object_name id)

  -- After a `Put` that returns no error, `Get` of that id returns the event, whole, and what `Get`
  -- would read under any other id is as before. Unmarshalling undoes marshalling.
  pub minio_put-get :
      (e : RawEvent) (s : S)
      → (minio_put json m e s).0 ≡ none
      → ((minio_get json m e.event_id (minio_put json m e s).1).0 ≡ ok e)
        × ((id : String)
            → (e.event_id == id) ≡ false
            → archived (minio_put json m e s).1 id ≡ archived s id)
  unfolding minio_get
  minio_put-get e s h =
      let (content, marshalled, now) = minio_put-stored e s h in
      let there = now (object_name e.event_id) ∙ rw (eq_refl (object_name e.event_id)) refl in
      let read = laws.get_reads m.bucket (object_name e.event_id) _ content there in
      (
        rw (read, trips e content marshalled) refl,
        λ id other. now (object_name id) ∙ rw (object_name-eq e.event_id id, other) refl,
      )
