-- ===== src/Chain/Works.antt =====
-- What statements, questions and transactions do alone, where they are answered.
use c_bridge_node.Base.{ℕ, suc, ◌≡◌, refl, ap, ◌∙◌, Option, none, some, List, ◌∷◌, arith}
use c_bridge_node.Wire.{Hash, TransferStatus}
use c_bridge_node.Transfer.{Row}
use c_bridge_node.World.{World, Env, Sent, Call, Fault, ok, TransferInfo}
use c_bridge_node.Exec.{pure, ask, modify, ◌>>=◌}
use c_bridge_node.Exec.Ends.{Ends, Ends-after}
use c_bridge_node.Dal.{
  exec_table, now, status_by_from, set_pending_transfer_in, set_transfer_status_by_from,
}
use c_bridge_node.Dal.Tables.{perform-exec_table}
use c_bridge_node.Chain.{result_of, safe_blk_num, BridgeConfig, get_transfer, transact}

-- In this environment, and with these transactions sent.
pub record At (e : Env) (sent : List Sent) (w : World) : Type 0 where
  pub env : w.env ≡ e
  pub so_far : w.sent ≡ sent

-- A transaction that was accepted.
abbrev pub accepted_call : BridgeConfig → Hash → Call → Sent
accepted_call bc tid call = record {
  chain = bc.chain_id;
  transfer_id = tid;
  call = call;
  outcome = none;
}

module _ (e : Env) (sent : List Sent) where
  pub exec_table-At :
      (f : List Row → List Row) (w : World)
      → ((n : ℕ) → e.db_fault n ≡ none)
      → At e sent w
      → Ends (exec_table f) w (λ r w'. (r ≡ ok tt) × At e sent w')
  exec_table-At f w answers at = record {
    ends =
        rw (perform-exec_table f w (ap (λ x. x.db_fault w.steps) at.env ∙ answers w.steps))
          (refl, record { env = at.env; so_far = at.so_far });
  }

  pub now-At :
      (w : World) → At e sent w → Ends now w (λ t w'. ((n : ℕ) × (t ≡ e.clock n)) × At e sent w')
  unfolding now ask
  now-At w at = record {
    ends =
        ((w.steps, ap (λ x. x.clock w.steps) at.env), record { env = at.env; so_far = at.so_far });
  }

  status_by_from-At :
      (tid : Hash) (to from : TransferStatus) (w : World)
      → ((n : ℕ) → e.db_fault n ≡ none)
      → At e sent w
      → Ends (now >>= status_by_from tid to from) w (λ r w'. (r ≡ ok tt) × At e sent w')
  unfolding status_by_from
  status_by_from-At tid to from w answers at =
      Ends-after _ (λ t w'. ((n : ℕ) × (t ≡ e.clock n)) × At e sent w') now _ w (now-At w at)
        (λ t w' h. exec_table-At _ w' answers h.1)

  pub set_pending_transfer_in-At :
      (tid : Hash) (to from : TransferStatus) (w : World)
      → ((n : ℕ) → e.db_fault n ≡ none)
      → At e sent w
      → Ends (set_pending_transfer_in tid to from) w (λ r w'. (r ≡ ok tt) × At e sent w')
  unfolding set_pending_transfer_in
  set_pending_transfer_in-At = status_by_from-At

  pub set_transfer_status_by_from-At :
      (tid : Hash) (to from : TransferStatus) (w : World)
      → ((n : ℕ) → e.db_fault n ≡ none)
      → At e sent w
      → Ends (set_transfer_status_by_from tid to from) w (λ r w'. (r ≡ ok tt) × At e sent w')
  unfolding set_transfer_status_by_from
  set_transfer_status_by_from-At = status_by_from-At

  pub get_transfer-At :
      (bc : BridgeConfig) (tid : Hash) (info : TransferInfo) (w : World)
      → ((n block : ℕ) → e.transfers n bc.chain_id block tid ≡ ok info)
      → At e sent w
      → Ends (get_transfer bc tid) w (λ r w'. (r ≡ ok info) × At e sent w')
  unfolding get_transfer ask ◌>>=◌
  get_transfer-At bc tid info w said at = record {
    ends = (
      ap (λ x. x.transfers (suc w.steps) bc.chain_id block tid) at.env ∙ said (suc w.steps) block,
      record { env = at.env; so_far = at.so_far },
    );
  }
    where
      block : ℕ
      block =
          safe_blk_num (w.env.current_block w.steps bc.chain_id) bc.config.watch_config.block_delay

  pub transact-At :
      (bc : BridgeConfig) (tid : Hash) (call : Call) (w : World)
      → ((n : ℕ) → e.transact n bc.chain_id call ≡ none)
      → At e sent w
      → Ends
          (transact bc tid call)
          w
          (λ r w'. (r ≡ ok tt) × At e (accepted_call bc tid call ∷ sent) w')
  unfolding transact result_of ask modify pure ◌>>=◌
  transact-At bc tid call w accepted at = record {
    ends = outcome _ (ap (λ x. x.transact w.steps bc.chain_id call) at.env ∙ accepted w.steps);
  }
    where
      outcome :
          (o : Option Fault)
          → o ≡ none
          → (result_of o ≡ ok tt)
            × At e (accepted_call bc tid call ∷ sent) (record w {
              steps = suc w.steps;
              sent = record (accepted_call bc tid call) { outcome = o } ∷ w.sent;
            })
      outcome none eq = (
        refl,
        record {
          env = at.env;
          so_far = ap (λ (xs : List Sent). accepted_call bc tid call ∷ xs) at.so_far;
        },
      )
      outcome (some x) eq = absurd (ground arith)
