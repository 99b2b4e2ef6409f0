-- ===== src/Workflow/Action.antt =====
-- A method of the service: what it returns or raises, with the repository after it. What was
-- written before a raise stays written.
use prd_agent.Base.{Result, ok, err}
use prd_agent.Domain.Errors.{WorkflowError}
use prd_agent.Workflow.Repository.{Repository, Action}

infixl 5 ◌>>=◌ ◌>>◌
abbrev pub after :
    {A B : Type 0}
    → (A → Action B)
    → Result WorkflowError A × Repository
    → Result WorkflowError B × Repository
after f (err e, s) = (err e, s)
after f (ok a, s) = f a s

abbrev pub ◌>>=◌ : {A B : Type 0} → Action A → (A → Action B) → Action B
◌>>=◌ m f s = after f (m s)

abbrev pub ◌>>◌ : {A B : Type 0} → Action A → Action B → Action B
m >> k = m >>= λ _. k

-- A test or a call that reads nothing and may raise.
abbrev pub checked : {A : Type 0} → Result WorkflowError A → Action A
checked r s = (r, s)

-- A read that may raise.
abbrev pub reading : {A : Type 0} → (Repository → Result WorkflowError A) → Action A
reading f s = (f s, s)

-- A write that does not raise.
abbrev pub writing : (Repository → Repository) → Action Unit
writing f s = (ok tt, f s)
