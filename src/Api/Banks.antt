-- ===== src/Api/Banks.antt =====
-- frontend/src/api/client.ts: the requests about snapshots and banks.
use antimoney.Prelude.{ℕ, Bool, String, List, codes}
use antimoney.Prelude.Int.{pos}
use antimoney.Matcher.{ImportRow}
use antimoney.Api.{
  Request, Json, text, number, bool, array, object, close, field, post, put, delete, read, send,
  bare, under, under_action, items, texts,
}

abbrev pub get_snapshot_config : Request
get_snapshot_config = read (codes "/snapshots/config")

abbrev pub upsert_snapshot_config : ℕ → ℕ → Bool → Request
upsert_snapshot_config frequency ttl active = send put (codes "/snapshots/config") (
    object (
      field "frequency_hours" (number (pos frequency))
        (field "ttl_hours" (number (pos ttl)) (field "active_mode" (bool active) close))))

abbrev pub list_snapshots : Request
list_snapshots = read (codes "/snapshots/")

abbrev pub take_snapshot : String → Request
take_snapshot label = send post (codes "/snapshots/") (object (field "label" (text label) close))

abbrev pub restore_snapshot : String → Request
restore_snapshot id = bare post (under_action "/snapshots/" id "/restore")

abbrev pub delete_snapshot : String → Request
delete_snapshot id = bare delete (under "/snapshots/" id)

abbrev pub plaid_get_link_token : String → Request
plaid_get_link_token language =
    send post (codes "/data/plaid/link-token") (object (field "language" (text language) close))

abbrev pub plaid_exchange : String → Request
plaid_exchange token =
    send post (codes "/data/plaid/exchange") (object (field "public_token" (text token) close))

abbrev mapping_json : String × String → Json
mapping_json (id, guid) =
    object (field "account_id" (text id) (field "account_guid" (text guid) close))

abbrev pub plaid_link : String → List (String × String) → Bool → Request
plaid_link item mappings pending = send post (codes "/data/plaid/link") (
    object (
      field "item_guid" (text item) (
        field "mappings" (array (items mapping_json mappings))
          (field "import_pending" (bool pending) close))))

abbrev pub plaid_sync : String → Request
plaid_sync item =
    send post (codes "/data/plaid/sync") (object (field "item_guid" (text item) close))

abbrev row_json : ImportRow → Json
row_json row = object (
    field "transaction_id" (text row.transaction_id)
      (field "category_account_guid" (text row.category_account_guid) close))

abbrev pub plaid_import : List ImportRow → Request
plaid_import rows =
    send post (codes "/data/plaid/import")
      (object (field "rows" (array (items row_json rows)) close))

abbrev pub plaid_dismiss : List String → Request
plaid_dismiss ids =
    send post (codes "/data/plaid/dismiss") (object (field "transaction_ids" (texts ids) close))

abbrev pub plaid_disconnect : String → Request
plaid_disconnect item = bare delete (under "/data/plaid/items/" item)

abbrev pub plaid_list_items : Request
plaid_list_items = read (codes "/data/plaid/items")
