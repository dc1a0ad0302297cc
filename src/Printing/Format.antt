-- ===== src/Printing/Format.antt =====
-- Formatted output.
use quark_kernel.Base.{All, ℕ, ◌≡◌, ◌≢◌, refl, List, [], ◌∷◌, ◌++◌, none, ne→not-==, sym, ap, ◌∙◌}
use quark_kernel.Base.State.{pure, ◌>>◌, continue, continue-same, continue-fault, continue_assoc}
use quark_kernel.Console.{Console, putchar, puts}
use quark_kernel.Printing.{Argument, Mode, put_number, put_argument, convert, printf_from, printf}

module _ (buffer : ℕ → ℕ) where
  -- Text without a percent sign in front of a format is put on the console as it is.
  pub printf-text :
      (str format : List ℕ) (args : List Argument) (s : Console)
      → All (λ c. c ≢ 37) str
      → printf buffer (str ++ format) args s ≡ (puts str >> printf buffer format args) s
  unfolding printf printf_from puts
  printf-text [] format args s all = refl
  printf-text (c ∷ str) format args s (ne, all) = rw (ne→not-== c 37 ne) (
      continue-same (λ a u. printf-text str format args u all) (putchar c s)
      ∙ sym (continue_assoc (putchar c s) (λ a. puts str) (λ a. printf buffer format args)))

  ended : (args : List Argument) (s : Console) → printf buffer (37 ∷ []) args s ≡ none
  unfolding printf printf_from
  ended args s = refl

  octal_alone :
      (n : ℕ) (format : List ℕ) (s : Console)
      → printf buffer (37 ∷ 111 ∷ format) (Argument.number n ∷ []) s ≡ none
  unfolding printf printf_from convert put_argument
  octal_alone n format s =
      ap (λ o. continue o (printf_from buffer format Mode.text))
        (continue_assoc (put_number buffer n 8 0 s) (λ a. pure []) (put_argument buffer 16 0)
          ∙ continue-fault (put_number buffer n 8 0 s) (λ a u. put_argument buffer 16 0 [] u)
              λ a u. refl)

  -- The conversion `%o` goes on with that of `%x`: with a number as the only argument it reads one
  -- more, a fault, whatever text is in front of it.
  pub printf-octal :
      (str format : List ℕ) (n : ℕ) (s : Console)
      → All (λ c. c ≢ 37) str
      → printf buffer (str ++ 37 ∷ 111 ∷ format) (Argument.number n ∷ []) s ≡ none
  printf-octal str format n s all =
      printf-text str (37 ∷ 111 ∷ format) (Argument.number n ∷ []) s all
      ∙ continue-fault (puts str s)
          (λ a. printf buffer (37 ∷ 111 ∷ format) (Argument.number n ∷ []))
          (λ a u. octal_alone n format u)

  -- A format that ends behind a percent sign is read past its end, a fault.
  pub printf-percent_end :
      (str : List ℕ) (args : List Argument) (s : Console)
      → All (λ c. c ≢ 37) str
      → printf buffer (str ++ 37 ∷ []) args s ≡ none
  printf-percent_end str args s all =
      printf-text str (37 ∷ []) args s all
      ∙ continue-fault (puts str s) (λ a. printf buffer (37 ∷ []) args) (λ a u. ended args u)
