-- ===== src/Mail/Tests.antt =====
-- packages/mail/src: runs on concrete inputs.
use ai_email_support_agent.Base.{ℕ, zero, suc, ◌++◌, Option, some, List, [], ◌∷◌, nat_eq}
use ai_email_support_agent.Mail.Threading.{build_references}
use ai_email_support_agent.Mail.Threading.Shape.{Trimmed, full_thread, build_references-Trimmed}

-- The thread's ids from the given one down, oldest first.
abbrev ids_up_to : ℕ → List (Option ℕ)
ids_up_to zero = []
ids_up_to (suc n) = ids_up_to n ++ some n ∷ []

build_references-Trimmed_example :
    Trimmed (full_thread (ids_up_to 25) 9) 9 (build_references (ids_up_to 25) 9)
build_references-Trimmed_example = build_references-Trimmed (ids_up_to 25) 9
