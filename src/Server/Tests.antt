-- ===== src/Server/Tests.antt =====
-- Runs of the functions of src/rest, and the theorems at concrete inputs.
use sea.Prelude.{ℕ, ◌≡◌, refl, some, List, [], ◌∷◌, ◌++◌, arith, if◌then◌else◌}
use sea.Bytes.{le_bytes}
use sea.Posix
use sea.Posix.{Os, pure, ran, undefined, einval}
use sea.Posix.Kept.{Kept}
use sea.Time.Block.Open.{OnDisk}
use sea.Posix.Names.{path_eq_refl}
use sea.Time.Sample.{abc, xy, system}
use sea.Controller.{codes, data_dir}
use sea.Controller.PhoneList.{Slot}
use sea.Controller.Data.{DataServerHdr, hdr_bytes}
use sea.Controller.Local.{Serving, serving-OnDisk}
use sea.Controller.Sample.{
  digest, direct, disk, node, open-Live, node-Serving, one_node, idle_dht, idle_nng, pqr,
}
use sea.Server.Uri.{get_block_id_and_record_id}
use sea.Server.Uri.RoundTrip.{get_ids-uri, Without}
use sea.Server.Rest.{Http, output, content_type, image_png, text_plain, rest_handle_get}
use sea.Server.Rest.Get.{HttpLaws, get_found, get_missing}
use sea.Server.DataServer.{Processed, data_server_process}
use sea.Server.DataServer.Requests.{process-get}
use sea.Server.DataServer.Requests.Put.{process-put_overread}

abbrev uri_path : List ℕ
uri_path = codes "/api/sea?id"

path_has_no_equals : Without b'=' uri_path
path_has_no_equals = omega arith

get_ids-uri_example :
    get_block_id_and_record_id (codes "/api/sea?id=1010101_1") (system 0 [])
    ≡ ran (0, some (1010101, 1)) (system 0 [])
unfolding Posix.decimal
get_ids-uri_example =
    get_ids-uri uri_path 1010101 1 (system 0 []) (ground arith) path_has_no_equals (omega arith)
      (omega arith)

-- A response with its headers and its body.
record Response : Type 0 where
  headers : List ℕ → List ℕ
  status : ℕ
  content : List ℕ

abbrev with_header : Response → List ℕ → List ℕ → Response
with_header r k v = record r { headers = λ k'. if Posix.path_eq k' k then v else r.headers k' }

abbrev fresh_response : Response
fresh_response = record { headers = λ k. []; status = 0; content = [] }

abbrev responses : Http Response
responses = record {
  alloc = pure (0, fresh_response);
  set_header = λ r k v. pure (0, with_header r k v);
  set_status = λ r n. pure (0, record r { status = n });
  copy_data = λ r bs. pure (0, record r { content = bs });
}

header_set : (r : Response) (k v : List ℕ) → (with_header r k v).headers k ≡ v
header_set r k v = rw (path_eq_refl k) refl

abbrev responses-HttpLaws : HttpLaws responses
responses-HttpLaws = record {
  empty = fresh_response;
  with_header = with_header;
  with_status = λ r n. record r { status = n };
  with_data = λ r bs. record r { content = bs };
  alloc-eq = λ os quiet. refl;
  set_header-eq = λ r k v os quiet. refl;
  set_status-eq = λ r n os quiet. refl;
  copy_data-eq = λ r bs os quiet. refl;
  body = λ r. r.content;
  status = λ r. r.status;
  header = λ r k. r.headers k;
  body-empty = refl;
  body-header = λ r k v. refl;
  body-status = λ r n. refl;
  body-data = λ r bs. refl;
  status-header = λ r k v. refl;
  status-status = λ r n. refl;
  status-data = λ r bs. refl;
  header-header = header_set;
  type-status = λ r n. refl;
  type-data = λ r bs. refl;
}

sample-OnDisk : OnDisk disk data_dir 9 (abc ∷ xy ∷ [])
sample-OnDisk = serving-OnDisk (node-Serving one_node)

get_found_example :
    (got : Response) × (os' : Os) × (rest_handle_get responses idle_dht idle_nng
        (codes "/api/sea?id=9_1")
        disk
      ≡ ran (output got) os')
    × (got.status ≡ 200)
    × (got.content ≡ xy)
    × (got.headers content_type ≡ image_png)
    × Kept disk os'
unfolding Posix.decimal node-Serving open-Live le_bytes serving-OnDisk sample-OnDisk
get_found_example =
    get_found responses-HttpLaws idle_dht idle_nng sample-OnDisk uri_path xy 1 (omega arith)
      (ground arith) path_has_no_equals (omega arith) (omega arith) (omega arith) refl (omega arith)

get_missing_example :
    (got : Response) × (os' : Os) × (rest_handle_get responses idle_dht idle_nng
        (codes "/api/sea?id=9_5")
        disk
      ≡ ran (output got) os')
    × (got.status ≡ 200)
    × (got.content ≡ [])
    × (got.headers content_type ≡ text_plain)
    × Kept disk os'
unfolding Posix.decimal
get_missing_example =
    get_missing responses-HttpLaws idle_dht idle_nng (λ os e. refl) sample-OnDisk uri_path 5
      (omega arith) (ground arith) path_has_no_equals (omega arith) (omega arith) (omega arith)

abbrev unset_hdr : DataServerHdr
unset_hdr = record { method = 7; error = 7; len = 7; block_id = 7; record_id = 7 }

process-get_example :
    (os' : Os) × (reply : Processed (ℕ → Slot)) × (data_server_process idle_dht idle_nng direct
        digest
        (node one_node)
        (hdr_bytes (record { method = 1; error = 0; len = 24; block_id = 9; record_id = 1 }))
        unset_hdr
        64
        disk
      ≡ ran reply os')
    × (reply.ret ≡ 0)
    × (reply.copied ≡ some xy)
    × (reply.send_buf_size ≡ 26)
    × (reply.send_hdr ≡ record { method = 1; error = 0; len = 7; block_id = 9; record_id = 1 })
    × Serving os' reply.controller (abc ∷ xy ∷ [])
unfolding node-Serving open-Live le_bytes
process-get_example =
    process-get idle_dht idle_nng direct digest (node-Serving one_node) unset_hdr 1 64 xy
      (omega arith) (omega arith) (omega arith) (omega arith) refl (omega arith) (omega arith)

process-put_overread_example :
    data_server_process idle_dht idle_nng direct digest
      (node one_node)
      (hdr_bytes (record { method = 2; error = 0; len = 27; block_id = 0; record_id = 0 }) ++ pqr)
      unset_hdr
      64
      disk
    ≡ undefined
process-put_overread_example =
    process-put_overread idle_dht idle_nng direct digest (node-Serving one_node) unset_hdr 64 pqr
      (omega arith)
