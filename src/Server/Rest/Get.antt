-- ===== src/Server/Rest/Get.antt =====
-- What a client gets that asks for a record by its numbers.
use sea.Prelude.{
  ℕ, ◌^◌, ◌≤◌, ◌<◌, ◌≡◌, ◌≢◌, refl, ◌∙◌, some, List, [], ◌∷◌, ◌++◌, length, arith, get_elem?-lt,
  get_elem?,
}
use sea.Posix.{Os, ran}
use sea.Posix.Kept.{Kept}
use sea.Time.Block.Open.{OnDisk}
use sea.Controller.{data_dir}
use sea.Controller.Reads.{read-OnDisk, read_beyond}
use sea.Controller.DhtList.{Dht}
use sea.Controller.Data.{Nng}
use sea.Server.Uri.{id_text}
use sea.Server.Uri.RoundTrip.{Without, get_ids-uri}
use sea.Server.Rest.{
  Http, output, content_type, text_plain, image_png, status_ok, get_buf_len, rest_handle_get,
  sea_get,
}

-- The library's documented behaviour where its calls succeed: a response has a status, headers and
-- a body, and is made with no body; each call sets the one part, but the body's comes with its
-- length as a header, so only the header Content-type is said to be kept.
pub record HttpLaws {R : Type 0} (http : Http R) : Type 0 where
  pub empty : R
  pub with_header : R → List ℕ → List ℕ → R
  pub with_status : R → ℕ → R
  pub with_data : R → List ℕ → R
  pub alloc-eq : (os : Os) → os.faults ≡ [] → http.alloc os ≡ ran (0, empty) os
  pub set_header-eq :
      (r : R) (k v : List ℕ) (os : Os)
      → os.faults ≡ []
      → http.set_header r k v os ≡ ran (0, with_header r k v) os
  pub set_status-eq :
      (r : R) (n : ℕ) (os : Os)
      → os.faults ≡ []
      → http.set_status r n os ≡ ran (0, with_status r n) os
  pub copy_data-eq :
      (r : R) (bs : List ℕ) (os : Os)
      → os.faults ≡ []
      → http.copy_data r bs os ≡ ran (0, with_data r bs) os
  pub body : R → List ℕ
  pub status : R → ℕ
  pub header : R → List ℕ → List ℕ
  pub body-empty : body empty ≡ []
  pub body-header : (r : R) (k v : List ℕ) → body (with_header r k v) ≡ body r
  pub body-status : (r : R) (n : ℕ) → body (with_status r n) ≡ body r
  pub body-data : (r : R) (bs : List ℕ) → body (with_data r bs) ≡ bs
  pub status-header : (r : R) (k v : List ℕ) → status (with_header r k v) ≡ status r
  pub status-status : (r : R) (n : ℕ) → status (with_status r n) ≡ n
  pub status-data : (r : R) (bs : List ℕ) → status (with_data r bs) ≡ status r
  pub header-header : (r : R) (k v : List ℕ) → header (with_header r k v) k ≡ v
  pub type-status : (r : R) (n : ℕ) → header (with_status r n) content_type ≡ header r content_type
  pub type-data :
      (r : R) (bs : List ℕ) → header (with_data r bs) content_type ≡ header r content_type

module _ {R : Type 0} {http : Http R} (laws : HttpLaws http) (dht : Dht) (nng : Nng) where
  -- The response before anything was found, and with what was found.
  abbrev plain : R
  plain = laws.with_status (laws.with_header laws.empty content_type text_plain) status_ok

  abbrev found_response : List ℕ → R
  found_response bs = laws.with_data (laws.with_header plain content_type image_png) bs

  -- The environment letting every call succeed and the descriptor 0 being in use: a get of a uri of
  -- a path that is not empty and has no `=` in it, an `=`, and the numbers of a block in the
  -- controller's directory and of one of its records, the first below 2^63, the block with fewer
  -- than 2^32 records and a data file below 2^63 bytes, and the record fitting the 128 KiB that are
  -- read, is answered with the status 200, the record as the body, and its type an image; and every
  -- file is kept.
  pub get_found :
      {os : Os} {id : ℕ} {rs : List (List ℕ)} (d : OnDisk os data_dir id rs) (path w : List ℕ)
      (k : ℕ)
      → 0 < os.next_fd
      → path ≢ []
      → Without b'=' path
      → id < 2 ^ 63
      → length d.b < 2 ^ 63
      → length rs < 2 ^ 32
      → get_elem? rs k ≡ some w
      → length w ≤ get_buf_len
      → (got : R) × (os' : Os) × (rest_handle_get http dht nng (path ++ b'=' ∷ id_text id k) os
          ≡ ran (output got) os')
        × (laws.status got ≡ status_ok)
        × (laws.body got ≡ w)
        × (laws.header got content_type ≡ image_png)
        × Kept os os'
  unfolding rest_handle_get sea_get
  get_found {os} {id} {rs} d path w k positive ne no_eq small fits few there le =
      let quiet : os.faults ≡ [] = d.quiet in
      let typed : R = laws.with_header plain content_type image_png in
      let (os', answered, kept) =
        read-OnDisk d positive dht nng k get_buf_len w fits few there le in
      (
        found_response w,
        os',
        rw
            (
              laws.alloc-eq os quiet,
              laws.set_header-eq laws.empty content_type text_plain os quiet,
              laws.set_status-eq _ status_ok os quiet,
              get_ids-uri path id k os ne no_eq small
                  (omega (arith, few, get_elem?-lt rs k w there)),
              answered,
              laws.set_header-eq plain content_type image_png os' kept.quiet,
              laws.copy_data-eq typed w os' kept.quiet,
            )
            refl,
        laws.status-data typed w
            ∙ laws.status-header plain content_type image_png
            ∙ laws.status-status _ status_ok,
        laws.body-data typed w,
        laws.type-data typed w ∙ laws.header-header plain content_type image_png,
        kept,
      )

  -- What is answered where nothing was found.
  Nothing : R → Type 0
  Nothing got =
      (laws.status got ≡ status_ok)
      × (laws.body got ≡ [])
      × (laws.header got content_type ≡ text_plain)

  plain-Nothing : Nothing plain
  unfolding Nothing
  plain-Nothing = (
    laws.status-status _ status_ok,
    laws.body-status _ status_ok
        ∙ laws.body-header laws.empty content_type text_plain
        ∙ laws.body-empty,
    laws.type-status _ status_ok ∙ laws.header-header laws.empty content_type text_plain,
  )

  -- The environment letting every call succeed, the descriptor 0 being in use and the question to
  -- the hash table leaving the files alone: a get of a uri of a path that is not empty and has no
  -- `=` in it, an `=`, and the number of a block in the controller's directory, below 2^63, and one,
  -- below 2^32, that none of its records has, is answered with the status 200, no body and the
  -- type of a text; and every file is kept.
  pub get_missing :
      ((os' : Os) → os'.faults ≡ [] → dht.search os' ≡ ran tt os')
      → {os : Os} {id : ℕ} {rs : List (List ℕ)} (d : OnDisk os data_dir id rs) (path : List ℕ)
        (k : ℕ)
      → 0 < os.next_fd
      → path ≢ []
      → Without b'=' path
      → id < 2 ^ 63
      → k < 2 ^ 32
      → length rs ≤ k
      → (got : R) × (os' : Os) × (rest_handle_get http dht nng (path ++ b'=' ∷ id_text id k) os
          ≡ ran (output got) os')
        × (laws.status got ≡ status_ok)
        × (laws.body got ≡ [])
        × (laws.header got content_type ≡ text_plain)
        × Kept os os'
  unfolding rest_handle_get sea_get Nothing
  get_missing calm {os} {id} {rs} d path k positive ne no_eq small few absent =
      let quiet : os.faults ≡ [] = d.quiet in
      let (os', answered, kept) = read_beyond d positive dht nng k get_buf_len calm absent in
      (
        plain,
        os',
        rw
            (
              laws.alloc-eq os quiet,
              laws.set_header-eq laws.empty content_type text_plain os quiet,
              laws.set_status-eq _ status_ok os quiet,
              get_ids-uri path id k os ne no_eq small few,
              answered,
            )
            refl,
        plain-Nothing.0,
        plain-Nothing.1,
        plain-Nothing.2,
        kept,
      )
