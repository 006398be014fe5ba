-- ===== src/Pausing.antt =====
-- The pause of a contract, which contracts/payment/src/lib.rs and contracts/refund/src/lib.rs write out
-- alike: the state that is kept, its history, and the part of each call after the test of its caller.
pub mod Rules
use facilpay_contracts.Prelude.{
  ℕ, ◌+◌, Bool, true, false, Option, none, some, List, [], ◌∷◌, if◌then◌else◌, put, bytes_eq,
}
use facilpay_contracts.Escrow.Types.{PauseState}
use facilpay_contracts.Host.{Address, Bytes, bytes_of, Env, Action, ◌>>=◌, ◌>>◌, gets, modify, u64}

pub record PauseHistory : Type 0 where
  pub index : ℕ
  pub function_name : Bytes
  pub paused : Bool
  pub changed_by : Address
  pub changed_at : ℕ
  pub reason : Bytes

-- The slots PauseStateKey, PauseHistoryEntry and PauseHistoryCount.
pub record Pausing : Type 0 where
  pub state : Option PauseState
  pub history : ℕ → Option PauseHistory
  pub count : ℕ

-- `fn_name == function_name` for one of the names
abbrev pub is_named : Bytes → List Bytes → Bool
is_named name [] = false
is_named name (n ∷ ns) = if bytes_eq n name then true else is_named name ns

abbrev pub push_name : List Bytes → Bytes → List Bytes
push_name [] name = name ∷ []
push_name (n ∷ ns) name = n ∷ push_name ns name

abbrev pub without : Bytes → List Bytes → List Bytes
without name [] = []
without name (n ∷ ns) = if bytes_eq n name then without name ns else n ∷ without name ns

module _ {E : Type 0} (env : Env) (admin : Address) where
  -- The entry that each call adds to the history.
  abbrev pub note : Bytes → Bool → Bytes → Action E Pausing Unit
  note name is_pause why = do
    p ← gets (λ p. p)
    bumped ← u64 (p.count + 1)
    modify (λ p. record p {
      history = put p.history p.count (
          some (record {
            index = p.count;
            function_name = name;
            paused = is_pause;
            changed_by = admin;
            changed_at = env.timestamp;
            reason = why;
          }));
      count = bumped;
    })

  -- `pause_contract`
  unfoldable pub pause_all : Bytes → Action E Pausing Unit
  pause_all why = do
    modify (λ p. record p {
      state = elim p.state [
        | none ↦ some (record {
          globally_paused = true;
          paused_functions = [];
          paused_at = env.timestamp;
          paused_by = admin;
          pause_reason = why;
        })
        | some st ↦ some (record st {
          globally_paused = true;
          paused_at = env.timestamp;
          paused_by = admin;
          pause_reason = why;
        })
      ];
    })
    note (bytes_of "global") true why

  -- `unpause_contract`
  unfoldable pub unpause_all : Action E Pausing Unit
  unpause_all = do
    modify (λ p. record p {
      state = elim p.state [ none ↦ none | some st ↦ some (record st { globally_paused = false }) ];
    })
    note (bytes_of "global") false []

  -- `pause_function`
  unfoldable pub pause_one : Bytes → Bytes → Action E Pausing Unit
  pause_one name why = do
    modify (λ p. record p {
      state = elim p.state [
        | none ↦ some (record {
          globally_paused = false;
          paused_functions = name ∷ [];
          paused_at = 0;
          paused_by = admin;
          pause_reason = [];
        })
        | some st ↦ some (record st {
          paused_functions =
              if is_named name st.paused_functions
              then st.paused_functions
              else push_name st.paused_functions name;
        })
      ];
    })
    note name true why

  -- `unpause_function`
  unfoldable pub unpause_one : Bytes → Action E Pausing Unit
  unpause_one name = do
    modify (λ p. record p {
      state = elim p.state [
        | none ↦ none
        | some st ↦ some (record st { paused_functions = without name st.paused_functions })
      ];
    })
    note name false []

-- The functions are paused one by one, or all together.
unfoldable pub is_function_paused : Bytes → Pausing → Bool
is_function_paused name p = elim p.state [
  | none ↦ false
  | some st ↦ if st.globally_paused then true else is_named name st.paused_functions
]

abbrev pub is_paused_all : Pausing → Bool
is_paused_all p = elim p.state [ none ↦ false | some st ↦ st.globally_paused ]
