-- ===== src/Lsm/Front.antt =====
-- LSM, the front end (src/lsm/engine.cpp, include/lsm/engine.h): it numbers the calls and hands them
-- to the engine.
use tiny_lsm_tree.Common.{
  ℕ, zero, suc, Option, none, some, Bool, true, false, List, [], ◌∷◌, Bytes, ltb,
}
use tiny_lsm_tree.Common.Result.{Result}
use tiny_lsm_tree.MemTable.Table.{get_total_size}
use tiny_lsm_tree.Lsm.Transaction.{
  TranManager, TranContext, IsolationLevel, new_manager, get_next_transaction_id,
  update_max_flushed_tranc_id, write_tranc_id_file,
}
use tiny_lsm_tree.Lsm.Engine.{LsmEngine, DirEntry, Found, new_engine}
use tiny_lsm_tree.Lsm.Engine

pub record Lsm (Rate : Type 0) : Type 0 where
  pub engine : LsmEngine Rate
  pub tran_manager : TranManager

abbrev pub value_of_found : Found → Option Bytes
value_of_found none = none
value_of_found (some p) = some p.0

-- The loop at the end of `get_batch`.
unfoldable pub batch_values : List (Bytes × Found) → List (Bytes × Option Bytes)
batch_values [] = []
batch_values ((key, found) ∷ rest) = (key, value_of_found found) ∷ batch_values rest

module _ {Rate : Type 0} where
  unfoldable pub new_lsm : (ℕ → ℕ → ℕ) → List DirEntry → Bytes → Lsm Rate
  unfolding new_engine new_manager
  new_lsm seeds directory path = record {
    engine = new_engine seeds directory path;
    tran_manager = new_manager path;
  }

  -- `tranc_off ? 0 : tran_manager_->getNextTransactionId()`
  unfoldable pub number : Lsm Rate → Bool → Lsm Rate × ℕ
  unfolding get_next_transaction_id
  number l true = (l, 0)
  number l false =
      let (m, id) = get_next_transaction_id l.tran_manager in (record l { tran_manager = m }, id)

  unfoldable pub get : Lsm Rate → Bytes → Bool → Lsm Rate × Option Bytes
  unfolding number Engine.get
  get l key tranc_off =
      let (l', tranc_id) = number l tranc_off in
      (l', value_of_found (Engine.get l'.engine key tranc_id))

  unfoldable pub get_batch : Lsm Rate → List Bytes → Lsm Rate × List (Bytes × Option Bytes)
  unfolding number Engine.get_batch batch_values
  get_batch l keys =
      let (l', tranc_id) = number l false in
      (l', batch_values (Engine.get_batch l'.engine keys tranc_id))

  unfoldable pub put : Lsm Rate → Bytes → Bytes → Bool → Lsm Rate
  unfolding number Engine.put
  put l key value tranc_off =
      let (l', tranc_id) = number l tranc_off in
      record l' { engine = (Engine.put l'.engine key value tranc_id).0 }

  unfoldable pub put_batch : Lsm Rate → List (Bytes × Bytes) → Lsm Rate
  unfolding number Engine.put_batch
  put_batch l kvs =
      let (l', tranc_id) = number l false in
      record l' { engine = (Engine.put_batch l'.engine kvs tranc_id).0 }

  unfoldable pub remove : Lsm Rate → Bytes → Lsm Rate
  unfolding number Engine.remove
  remove l key =
      let (l', tranc_id) = number l false in
      record l' { engine = (Engine.remove l'.engine key tranc_id).0 }

  unfoldable pub remove_batch : Lsm Rate → List Bytes → Lsm Rate
  unfolding number Engine.remove_batch
  remove_batch l keys =
      let (l', tranc_id) = number l false in
      record l' { engine = (Engine.remove_batch l'.engine keys tranc_id).0 }

  unfoldable pub clear : (Bytes → Bool) → Lsm Rate → Lsm Rate
  unfolding Engine.clear
  clear removes l = record l { engine = Engine.clear removes l.engine }

  unfoldable pub flush : Lsm Rate → Lsm Rate
  unfolding Engine.flush
  flush l = record l { engine = (Engine.flush l.engine).0 }

  -- A round of `flush_all`.
  unfoldable pub flush_round : Lsm Rate → Lsm Rate
  unfolding Engine.flush update_max_flushed_tranc_id
  flush_round l =
      let (e, max_tranc_id) = Engine.flush l.engine in
      record l {
        engine = e;
        tran_manager = update_max_flushed_tranc_id l.tran_manager max_tranc_id;
      }

  -- `flush_all`; `none` where the loop is still running when the fuel is spent.
  unfoldable pub flush_all : ℕ → Lsm Rate → Option (Lsm Rate)
  unfolding get_total_size flush_round
  flush_all zero l = none
  flush_all (suc fuel) l = elim (ltb 0 (get_total_size l.engine.memtable)) [
    | true ↦ flush_all fuel (flush_round l)
    | false ↦ some l
  ]

  -- The destructor.
  unfoldable pub destroy : ℕ → Lsm Rate → Option (Lsm Rate)
  unfolding flush_all write_tranc_id_file
  destroy fuel l = elim (flush_all fuel l) [
    | none ↦ none
    | some l' ↦ some (record l' { tran_manager = write_tranc_id_file l'.tran_manager })
  ]

  unfoldable pub begin : {I : Type 0} → Lsm Rate → ℕ → Result I
  unfolding Engine.begin
  begin l tranc_id = Engine.begin l.engine tranc_id

  unfoldable pub end : {I : Type 0} → Lsm Rate → Result I
  unfolding Engine.end
  end l = Engine.end l.engine

  unfoldable pub lsm_iters_monotony_predicate {ℓ} :
      {P I : Type ℓ} → Lsm Rate → ℕ → P → Option (I × I)
  unfolding Engine.lsm_iters_monotony_predicate
  lsm_iters_monotony_predicate l tranc_id predicate =
      Engine.lsm_iters_monotony_predicate l.engine tranc_id predicate

  -- `begin_tran`, a null pointer
  unfoldable pub begin_tran : Lsm Rate → IsolationLevel → Option TranContext
  begin_tran l isolation_level = none
