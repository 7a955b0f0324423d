-- ===== src/Convert/Journal.antt =====
-- scripts/convert_csv.js: the loop over the lines of transactions.csv, and what is written of it.
use antimoney.Prelude.{
  ℕ, Bool, true, false, ◌&&◌, Option, none, some, List, [], ◌∷◌, ◌++◌, map, length, ltb, get_elem?,
  codes, if◌then◌else◌,
}
use antimoney.Prelude.Int.{ℤ}
use antimoney.Types.{Amount}
use antimoney.Register.Search.{Text}
use antimoney.Editor.{same_text, round_cents}
use antimoney.Convert.{Host, dash, uuid, named, shown, or_empty}
use antimoney.Convert.Chart.{is_text}

-- The id of the transaction that is read: `null` at first, `undefined` at a row without one.
pub data TxId : Type 0 where
  null missing : TxId
  text : Text → TxId

pub record Split : Type 0 where
  pub guid : Text
  pub acc_name : Option Text
  pub memo : Text
  pub num_amt : ℤ
  pub rec : Option Text

pub record Tx : Type 0 where
  pub id : Text
  pub original_id : TxId
  pub date : Text
  pub num : Option Text
  pub desc : Option Text
  pub splits : List Split

pub record State : Type 0 where
  pub current_tx_id : TxId
  pub splits : List Split
  pub last_dt : Text
  pub last_num : Option Text
  pub last_desc : Option Text
  pub txs : List Tx

unfoldable pub initial : State
initial = record {
  current_tx_id = null;
  splits = [];
  last_dt = [];
  last_num = some [];
  last_desc = some [];
  txs = [];
}

abbrev pub id_of : Option Text → TxId
id_of none = missing
id_of (some t) = text t

abbrev pub id_text : TxId → Text
id_text null = codes "null"
id_text missing = codes "undefined"
id_text (text t) = t

-- whether an id is truthy
abbrev pub is_truthy : TxId → Bool
is_truthy null = false
is_truthy missing = false
is_truthy (text []) = false
is_truthy (text (_ ∷ _)) = true

-- `txid === currentTxId`
abbrev pub same_id : TxId → TxId → Bool
same_id null null = true
same_id missing missing = true
same_id (text s) (text t) = same_text s t
same_id null missing = false
same_id null (text t) = false
same_id missing null = false
same_id missing (text t) = false
same_id (text s) null = false
same_id (text s) missing = false

-- A column of a row; the columns of a line are numbered from 0.
abbrev pub txid : List Text → TxId
txid cols = id_of (get_elem? cols 1)

abbrev pub make_tx : Host → TxId → Text → Option Text → Option Text → List Split → Tx
make_tx host id date num desc splits = record {
  id = uuid host (named "tx-" (id_text id));
  original_id = id;
  date = date;
  num = num;
  desc = desc;
  splits = splits;
}

-- `flushTx`
unfoldable pub flush_tx : Host → State → State
flush_tx host s =
    if is_truthy s.current_tx_id && ltb 0 (length s.splits)
    then record s {
      txs = s.txs ++ (make_tx host s.current_tx_id s.last_dt s.last_num s.last_desc s.splits ∷ []);
      splits = [];
    }
    else s

-- The rest of `if (txid !== currentTxId)`. Each line has a first column.
unfoldable pub begin_tx : Host → List Text → State → State
begin_tx host cols s = if same_id (txid cols) s.current_tx_id then s else record (flush_tx host s) {
  current_tx_id = txid cols;
  last_dt = or_empty (get_elem? cols 0);
  last_num = get_elem? cols 2;
  last_desc = get_elem? cols 3;
}

-- `parseFloat(numAmt)`
abbrev pub amount_of : Host → Option Text → Option Amount
amount_of host none = none
amount_of host (some t) = host.parse_float t

unfoldable pub make_split : Host → TxId → ℕ → List Text → Amount → Split
make_split host id index cols amt = record {
  guid = uuid host (named "spt-" (id_text id ++ (dash ∷ host.digits index)));
  acc_name = get_elem? cols 9;
  memo = or_empty (get_elem? cols 8);
  num_amt = round_cents amt;
  rec = get_elem? cols 15;
}

-- The split of a row, unless its amount is not a number.
unfoldable pub push_split : Host → List Text → Option Amount → State → State
push_split host cols none s = s
push_split host cols (some amt) s = record s {
  splits = s.splits ++ (make_split host s.current_tx_id (length s.splits) cols amt ∷ []);
}

unfoldable pub step : Host → State → List Text → State
step host s cols = push_split host cols (amount_of host (get_elem? cols 12)) (begin_tx host cols s)

unfoldable pub loop : Host → State → List (List Text) → State
loop host s [] = s
loop host s (cols ∷ rest) = loop host (step host s cols) rest

-- The transactions of a file's rows.
unfoldable pub journal : Host → List (List Text) → List Tx
journal host rs = (flush_tx host (loop host initial rs)).txs

-- A split and a transaction of the import file.
pub record ImportSplit : Type 0 where
  pub guid : Text
  pub account_guid : Text
  pub memo : Text
  pub value_num : ℤ
  pub value_denom : ℕ
  pub quantity_num : ℤ
  pub quantity_denom : ℕ
  pub reconcile_state : Text

pub record ImportTx : Type 0 where
  pub guid : Text
  pub custom_id : Text
  pub post_date : Text
  pub enter_date : Text
  pub description : Option Text
  pub splits : List ImportSplit

unfoldable pub import_split : Host → Split → ImportSplit
import_split host s = record {
  guid = s.guid;
  account_guid = uuid host (named "acc-" (shown s.acc_name));
  memo = s.memo;
  value_num = s.num_amt;
  value_denom = 100;
  quantity_num = s.num_amt;
  quantity_denom = 100;
  reconcile_state = if is_text s.rec (codes "y") then codes "y" else codes "n";
}

unfoldable pub import_tx : Host → Tx → ImportTx
import_tx host t = record {
  guid = t.id;
  custom_id = or_empty t.num;
  post_date = t.date ++ codes " 12:00:00";
  enter_date = host.now;
  description = t.desc;
  splits = map (import_split host) t.splits;
}
