-- ===== src/Executor/Apply/Outcome.antt =====
-- The outcome of an apply.
use iac.Prelude.{◌≡◌, ◌⊎◌, true, false, none, some, List, [], ◌∷◌, All, String}
use iac.Provider.{Resource, id_of, OperationStatus, Provider}
use iac.Executor.{ItemStatus, ApplyItem, ApplyResult, VerifySummary}
use iac.Executor.Ends.{Ends}
use iac.Executor.Steps.Order.{NotFailed, Stopped}
use iac.Executor.Apply.{any_failed, any_changed}

-- What an item's status says of its steps, its verification and its error.
abbrev pub SoundAs : ItemStatus → ApplyItem → Type 0
SoundAs ItemStatus.no_change i = (i.steps ≡ []) × (i.error ≡ none)
SoundAs ItemStatus.succeeded i =
    (s : VerifySummary) × (i.verify ≡ some s)
    × (s.matched ≡ true)
    × All NotFailed i.steps
    × (i.error ≡ none)
SoundAs ItemStatus.failed i =
    ((text : String) × (i.error ≡ some text) × Stopped (some text) i.steps × (i.verify ≡ none))
    ⊎ ((s : VerifySummary) × (i.verify ≡ some s) × (s.matched ≡ false) × All NotFailed i.steps)
SoundAs ItemStatus.skipped i = ⊥

-- The item is that of the resource, and sound.
abbrev pub ItemOf : Resource → ApplyItem → Type 0
ItemOf r i = (i.resource_id ≡ id_of r) × (i.kind ≡ r.kind) × SoundAs i.status i

-- One item for each resource, in their order.
abbrev pub ItemsOf : List Resource → List ApplyItem → Type 0
ItemsOf [] [] = Unit
ItemsOf [] (i ∷ items) = ⊥
ItemsOf (r ∷ rs) [] = ⊥
ItemsOf (r ∷ rs) (i ∷ items) = ItemOf r i × ItemsOf rs items

-- What the operation's status says of its items.
abbrev pub StatusOf : OperationStatus → List ApplyItem → Type 0
StatusOf OperationStatus.succeeded items = any_failed items ≡ false
StatusOf OperationStatus.partially_applied items =
    (any_failed items ≡ true) × (any_changed items ≡ true)
StatusOf OperationStatus.failed items = (any_failed items ≡ true) × (any_changed items ≡ false)
StatusOf _ items = ⊥

pub record Outcome (resources : List Resource) (result : ApplyResult) : Type 0 where
  pub items_of : ItemsOf resources result.items
  pub status_of : StatusOf result.operation.status result.items
