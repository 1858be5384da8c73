-- ===== src/Server/Rest.antt =====
-- src/rest/server.c: what is answered over HTTP. The library's response is an interface. Of what the
-- handlers print, the body of a request is read for it as a string.
pub mod Get
use sea.Prelude.{
  ℕ, ◌+◌, ◌-◌, ◌*◌, ◌%◌, ◌^◌, Option, none, some, List, [], ◌∷◌, ◌++◌, ltb, ◌==◌, if◌then◌else◌,
  length, take,
}
use sea.Posix.{M, pure, undef, ◌>>=◌, ◌>>◌}
use sea.Column.{strlen}
use sea.Time.Utils.{snprintf}
use sea.Time.Block.{Answer, first_bytes}
use sea.Controller
use sea.Controller.{Controller, Written, codes}
use sea.Controller.PhoneList.{Khash}
use sea.Controller.DhtList.{Dht}
use sea.Controller.Data.{Nng}
use sea.Server.Uri.{get_block_id_and_record_id, id_text}

-- A value of `R` is a response. Each call gives a code, 0 for success.
pub record Http (R : Type 0) : Type 0 where
  pub alloc : M (ℕ × R)
  pub set_header : R → List ℕ → List ℕ → M (ℕ × R)
  pub set_status : R → ℕ → M (ℕ × R)
  pub copy_data : R → List ℕ → M (ℕ × R)

-- How a request is finished: with a code alone, or with the response.
pub data Finished (R : Type 0) : Type 0 where
  failed_with : ℕ → Finished R
  output : R → Finished R

abbrev pub content_type : List ℕ
content_type = codes "Content-type"

abbrev pub text_plain : List ℕ
text_plain = codes "text/plain"

abbrev pub image_png : List ℕ
image_png = codes "image/png"

abbrev pub status_ok : ℕ
status_ok = 200

abbrev pub get_buf_len : ℕ
get_buf_len = 1024 * 128

-- "{\"id\":\"%llu_%u\"}"
unfoldable pub id_json : ℕ → ℕ → List ℕ
id_json block_id record_id = codes "{\"id\":\"" ++ (id_text block_id record_id ++ codes "\"}")

unfoldable pub sea_put :
    {T : Type 0}
    → Dht
    → Nng
    → Khash T
    → (List ℕ → List ℕ)
    → Controller T
    → Option (List ℕ)
    → ℕ
    → ℕ
    → M (Written T)
sea_put dht nng kh md5 c buf buf_len record_id =
    Controller.write dht nng kh md5 c buf buf_len record_id

unfoldable pub sea_get : Dht → Nng → ℕ → ℕ → ℕ → M Answer
sea_get dht nng block_id record_id buf_len = Controller.read dht nng block_id record_id buf_len

module _ {R : Type 0} (http : Http R) where
  -- The next call of a chain of `||`, which the first failure ends.
  and_then : ℕ × R → (R → M (ℕ × R)) → M (ℕ × R)
  and_then r f = if r.0 == 0 then f r.1 else pure r

  labelled : R → M (ℕ × R)
  unfolding and_then
  labelled res = do
    h ← http.set_header res content_type text_plain
    and_then h (λ r. http.set_status r status_ok)

  put_record : R → Answer → M (Finished R)
  put_record res a =
      if a.ret == 0
      then (do
        h ← http.set_header res content_type image_png
        d ← http.copy_data h.1 (first_bytes a.copied)
        pure (output d.1))
      else pure (output res)

  find_record : Dht → Nng → R → List ℕ → M (Finished R)
  unfolding put_record sea_get
  find_record dht nng res uri = do
    ids ← get_block_id_and_record_id uri
    elim ids.1 [
      | none ↦ pure (output res)
      | some (block_id, record_id) ↦ (do
        a ← sea_get dht nng block_id record_id get_buf_len
        put_record res a)
    ]

  -- Where a response is not had, a pointer that was not set is freed.
  unfoldable pub rest_handle_get : Dht → Nng → List ℕ → M (Finished R)
  unfolding labelled find_record
  rest_handle_get dht nng uri = do
    res ← http.alloc
    if res.0 == 0
        then (do
          l ← labelled res.1
          if l.0 == 0 then find_record dht nng l.1 uri else pure (failed_with l.0))
        else undef

  put_ids : {T : Type 0} → R → Written T → M (Finished R × Controller T)
  unfolding id_json
  put_ids res w =
      if w.ret == 0
      then (do
        let text = id_json w.block_id w.record_id
        d ← http.copy_data res (take (length text) (snprintf 1024 text))
        pure (output d.1, w.controller))
      else pure (output res, w.controller)

  -- `printf` with `%s`, which reads up to a zero byte; `none` is a null pointer.
  printed : Option (List ℕ) → M (List ℕ)
  printed none = undef
  printed (some bs) = strlen bs

  -- The body of the request, if it has one, is the body of the response until the numbers of the
  -- record take its place.
  unfoldable pub rest_handle_post :
      {T : Type 0}
      → Dht
      → Nng
      → Khash T
      → (List ℕ → List ℕ)
      → Controller T
      → Option (List ℕ)
      → M (Finished R × Controller T)
  unfolding labelled put_ids printed sea_put
  rest_handle_post dht nng kh md5 c body = do
    let len = length (first_bytes body)
    res ← http.alloc
    if res.0 == 0
        then (do
          d ← http.copy_data res.1 (first_bytes body)
          l ← and_then d labelled
          if l.0 == 0
              then (do
                w ← sea_put dht nng kh md5 c body (len % 2 ^ 32) 0
                printed body
                put_ids l.1 w)
              else pure (failed_with l.0, c))
        else undef
