-- ===== src/Server/Orders.antt =====
-- lab-5-network/mcdonalds.c: the list of orders. A pointer to a node is its number, in the order of
-- allocation, and a pointer to freed memory leads to a `fault`. Memory suffices for new nodes.
pub mod Queue
use snu_2021_fall_sys_prog.Common.{
  ℕ, zero, suc, ◌+◌, ◌-◌, ◌%◌, ◌^◌, Bool, true, false, Option, none, some, ltb, ◌==◌, if◌then◌else◌,
}
use snu_2021_fall_sys_prog.Common.Run.{Run, ok, fault, ◌>>=◌}

pub data Burger : Type 0 where
  bigmac cheese chicken bulgogi : Burger

abbrev pub burger_eq : Burger → Burger → Bool
burger_eq bigmac bigmac = true
burger_eq cheese cheese = true
burger_eq chicken chicken = true
burger_eq bulgogi bulgogi = true
burger_eq a b = false

pub record Node : Type 0 where
  pub next : Option ℕ
  pub customer : ℕ
  pub burger : Burger
  pub is_ready : Bool

-- The memory of the nodes, and the list: its ends and its length.
pub record Orders : Type 0 where
  pub nodes : ℕ → Option Node
  pub fresh : ℕ
  pub head : Option ℕ
  pub tail : Option ℕ
  pub count : ℕ

abbrev pub update {ℓ} : {A : Type ℓ} → (ℕ → A) → ℕ → A → ℕ → A
update f p a q = if q == p then a else f q

abbrev pub new_node : (customer : ℕ) → Burger → Node
new_node customer burger = record {
  next = none;
  customer = customer;
  burger = burger;
  is_ready = false;
}

unfoldable pub issue_order : (customer : ℕ) → Burger → Orders → Run (ℕ × Orders)
issue_order customer burger o = elim o.tail [
  | none ↦ ok (
    o.fresh,
    record {
      nodes = update o.nodes o.fresh (some (new_node customer burger));
      fresh = o.fresh + 1;
      head = some o.fresh;
      tail = some o.fresh;
      count = (o.count + 1) % 2 ^ 32;
    },
  )
  | some last ↦ elim (o.nodes last) [
    | none ↦ fault
    | some n ↦ ok (
      o.fresh,
      record {
        nodes =
            update (update o.nodes o.fresh (some (new_node customer burger))) last
              (some (record n { next = some o.fresh }));
        fresh = o.fresh + 1;
        head = o.head;
        tail = some o.fresh;
        count = (o.count + 1) % 2 ^ 32;
      },
    )
  ]
]

-- p == q
abbrev pub same : Option ℕ → Option ℕ → Bool
same none none = true
same none (some q) = false
same (some p) none = false
same (some p) (some q) = p == q

-- --count
abbrev pub decrement : ℕ → ℕ
decrement n = (n + 2 ^ 32 - 1) % 2 ^ 32

unfoldable pub get_order : Orders → Run (Option ℕ × Orders)
get_order o = elim o.head [
  | none ↦ ok (none, o)
  | some first ↦
      if same (some first) o.tail
      then ok (some first, record o { head = none; tail = none; count = decrement o.count })
      else elim (o.nodes first) [
        | none ↦ fault
        | some n ↦ ok (some first, record o { head = n.next; count = decrement o.count })
      ]
]

unfoldable pub order_left : Orders → ℕ
order_left o = o.count
