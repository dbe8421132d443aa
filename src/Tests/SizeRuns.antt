-- ===== src/Tests/SizeRuns.antt =====
-- Printed sizes (src/Utils.cpp), and settings after a command line (src/BaseApp.cpp).
use ml_gridengine_executor.Base.{ℕ, ◌≡◌, refl, List, [], ◌∷◌, true}
use ml_gridengine_executor.Sizes.{format_file_size}
use ml_gridengine_executor.Options.Table.{no_exit, status_file, entry_of}
use ml_gridengine_executor.Options.{defaults, configure}
use ml_gridengine_executor.Options.Valid.{IsValid, configure-IsValid}
use ml_gridengine_executor.Tests.OptionRuns.{parsers}

-- 1.50
abbrev one_and_a_half : List ℕ
one_and_a_half = b'1' ∷ b'.' ∷ b'5' ∷ b'0' ∷ []

-- It is printed as 1.5K.
trims : format_file_size one_and_a_half (b'K' ∷ []) ≡ b'1' ∷ b'.' ∷ b'5' ∷ b'K' ∷ []
unfolding format_file_size
trims = refl

configure-IsValid_example :
    IsValid (λ pattern text. true) (record defaults { no_exit = true; status_file = "x" })
configure-IsValid_example =
    configure-IsValid (λ pattern text. true) parsers ((no_exit, "") ∷ (status_file, "x") ∷ [])
      (record defaults { no_exit = true; status_file = "x" })
      (unfold entry_of in unfold configure in refl)
