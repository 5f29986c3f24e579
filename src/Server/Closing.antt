-- ===== src/Server/Closing.antt =====
-- lab-5-network/mcdonalds.c: print_statistics, exit_mcdonalds and the two handlers of SIGINT.
use snu_2021_fall_sys_prog.Common.{ℕ, ◌%◌, ◌^◌, ◌≡◌, false, List, [], ◌∷◌, map, arith, total}
use snu_2021_fall_sys_prog.Server.Orders.{Burger, bigmac, cheese, chicken, bulgogi}
use snu_2021_fall_sys_prog.Server.Start.{init_mcdonalds}
use snu_2021_fall_sys_prog.Server.Threads.{Context, System, burger_names, Reach}
use snu_2021_fall_sys_prog.Server.Threads.Conservation.{at_work, Reach-IsConserved}

-- What is printed: the customers, and the name and number of each burger.
pub record Statistics : Type 0 where
  pub customers : ℕ
  pub burgers : List (List ℕ × ℕ)

-- The loop runs over the burgers in the order of their type.
abbrev pub all_burgers : List Burger
all_burgers = bigmac ∷ cheese ∷ chicken ∷ bulgogi ∷ []

unfoldable pub print_statistics : Context → Statistics
print_statistics c = record {
  customers = c.total_customers;
  burgers = map (λ b. (burger_names b, c.total_burgers b)) all_burgers;
}

-- The handler that is installed for SIGINT.
pub data Handler : Type 0 where
  sigint_handler sigint_handler2 : Handler

-- After SIGINT the server goes on with the handler that is installed then, or it has printed its
-- statistics and ended.
pub data Interrupted : Type 0 where
  continues : Handler → Context → Interrupted
  exits : Statistics → Interrupted

unfoldable pub handle_sigint : Handler → Context → Interrupted
handle_sigint sigint_handler c = continues sigint_handler2 (record c { keep_running = false })
handle_sigint sigint_handler2 c = exits (print_statistics c)

-- When the list is empty and no kitchen thread works on an order, the numbers of burgers that
-- print_statistics prints add up to the orders that have been issued, modulo 2 ^ 32.
pub print_statistics-issued :
    (garbage : ℕ → ℕ) {t : System}
    → Reach (init_mcdonalds garbage) t
    → t.context.list.count ≡ 0
    → total at_work t.kitchens ≡ 0
    → total (λ (l : List ℕ × ℕ). l.1) (print_statistics t.context).burgers % 2 ^ 32
      ≡ t.context.list.fresh % 2 ^ 32
unfolding print_statistics
print_statistics-issued garbage r empty idle =
    omega (arith, Reach-IsConserved garbage r, empty, idle)
