-- ===== src/Server/Orders/Queue.antt =====
-- The list of orders of lab-5-network/mcdonalds.c is a queue.
use snu_2021_fall_sys_prog.Common.{
  ℕ, ◌+◌, ◌%◌, ◌^◌, ◌≤◌, ◌<◌, ◌≡◌, ◌≢◌, ◌∙◌, refl, sym, subst, Option, none, some, List, [], ◌∷◌,
  ◌++◌, arith, length, length-append, eq→==, ne→==,
}
use snu_2021_fall_sys_prog.Common.Run.{ok, Returns}
use snu_2021_fall_sys_prog.Server.Orders.{
  Burger, Node, Orders, update, new_node, issue_order, decrement, get_order,
}

abbrev pub first : List ℕ → Option ℕ
first [] = none
first (x ∷ xs) = some x

abbrev pub last : List ℕ → Option ℕ
last [] = none
last (x ∷ []) = some x
last (x ∷ y ∷ ys) = last (y ∷ ys)

-- The nodes are allocated, each points to the next, and their numbers grow to below `fresh`.
abbrev pub Chain : (ℕ → Option Node) → (fresh : ℕ) → List ℕ → Type 0
Chain nodes fresh [] = Unit
Chain nodes fresh (x ∷ []) = (x < fresh) × (n : Node) × (nodes x ≡ some n)
Chain nodes fresh (x ∷ y ∷ ys) =
    (x < y) × ((n : Node) × (nodes x ≡ some n) × (n.next ≡ some y)) × Chain nodes fresh (y ∷ ys)

-- The list holds the orders `xs`, the oldest first.
pub record IsQueue (o : Orders) (xs : List ℕ) : Type 0 where
  pub head_first : o.head ≡ first xs
  pub tail_last : o.tail ≡ last xs
  pub chain : Chain o.nodes o.fresh xs
  pub counted : o.count ≡ length xs % 2 ^ 32

Chain-lt :
    (nodes : ℕ → Option Node) (fresh x : ℕ) (xs : List ℕ) → Chain nodes fresh (x ∷ xs) → x < fresh
Chain-lt nodes fresh x [] c = c.0
Chain-lt nodes fresh x (y ∷ ys) c = omega (arith, c.0, Chain-lt nodes fresh y ys c.2)

-- The last node of a queue.
Chain-last :
    (nodes : ℕ → Option Node) (fresh x : ℕ) (xs : List ℕ)
    → Chain nodes fresh (x ∷ xs)
    → (l : ℕ) × (last (x ∷ xs) ≡ some l) × (l < fresh) × (x ≤ l) × ((n : Node) × (nodes l ≡ some n))
Chain-last nodes fresh x [] c = (x, refl, c.0, omega arith, (c.1, c.2))
Chain-last nodes fresh x (y ∷ ys) c =
    let (l, e, small, above, n) = Chain-last nodes fresh y ys c.2 in
    (l, e, small, omega (arith, above, c.0), n)

-- The memory behind issue_order on a list with the last node `l`.
abbrev linked : (ℕ → Option Node) → (fresh l : ℕ) (n m : Node) → ℕ → Option Node
linked nodes fresh l n m =
    update (update nodes fresh (some m)) l (some (record n { next = some fresh }))

linked-old :
    (nodes : ℕ → Option Node) (fresh l : ℕ) (n m : Node) (x : ℕ)
    → x ≢ l
    → x ≢ fresh
    → linked nodes fresh l n m x ≡ nodes x
linked-old nodes fresh l n m x h k = rw (ne→== x l h, ne→== x fresh k) refl

linked-last :
    (nodes : ℕ → Option Node) (fresh l : ℕ) (n m : Node)
    → linked nodes fresh l n m l ≡ some (record n { next = some fresh })
linked-last nodes fresh l n m = rw (eq→== l l refl) refl

linked-new :
    (nodes : ℕ → Option Node) (fresh l : ℕ) (n m : Node)
    → fresh ≢ l
    → linked nodes fresh l n m fresh ≡ some m
linked-new nodes fresh l n m h = rw (ne→== fresh l h, eq→== fresh fresh refl) refl

-- A node behind the last one.
Chain-extend :
    (nodes : ℕ → Option Node) (fresh x : ℕ) (xs : List ℕ) (l : ℕ) (n m : Node)
    → Chain nodes fresh (x ∷ xs)
    → last (x ∷ xs) ≡ some l
    → Chain (linked nodes fresh l n m) (fresh + 1) (x ∷ xs ++ fresh ∷ [])
Chain-extend nodes fresh x [] l n m c e =
    let same : x ≡ l = cc in
    (
      c.0,
      (record n { next = some fresh }, rw same (linked-last nodes fresh l n m), refl),
      (omega arith, m, linked-new nodes fresh l n m (λ f. omega (arith, f, same, c.0))),
    )
Chain-extend nodes fresh x (y ∷ ys) l n m c e =
    let (l', e', small, above, alive) = Chain-last nodes fresh y ys c.2 in
    let same : l' ≡ l = cc (sym e' ∙ e) in
    let (k, at_x, next) = c.1 in
    (
      c.0,
      (
        k,
        linked-old nodes fresh l n m x (λ f. omega (arith, f, same, above, c.0))
              (λ f. omega (arith, f, small, above, c.0))
            ∙ at_x,
        next,
      ),
      Chain-extend nodes fresh y ys l n m c.2 e,
    )

last-append : (xs : List ℕ) (z : ℕ) → last (xs ++ z ∷ []) ≡ some z
last-append [] z = refl
last-append (x ∷ []) z = refl
last-append (x ∷ y ∷ ys) z = last-append (y ∷ ys) z

issue_order_empty :
    (customer : ℕ) (burger : Burger) (o : Orders)
    → o.tail ≡ none
    → issue_order customer burger o
      ≡ ok (
        o.fresh,
        record {
          nodes = update o.nodes o.fresh (some (new_node customer burger));
          fresh = o.fresh + 1;
          head = some o.fresh;
          tail = some o.fresh;
          count = (o.count + 1) % 2 ^ 32;
        },
      )
unfolding issue_order
issue_order_empty customer burger o e = rw e refl

issue_order-linked :
    (customer : ℕ) (burger : Burger) (o : Orders) (l : ℕ) (n : Node)
    → o.tail ≡ some l
    → o.nodes l ≡ some n
    → issue_order customer burger o
      ≡ ok (
        o.fresh,
        record {
          nodes = linked o.nodes o.fresh l n (new_node customer burger);
          fresh = o.fresh + 1;
          head = o.head;
          tail = some o.fresh;
          count = (o.count + 1) % 2 ^ 32;
        },
      )
unfolding issue_order
issue_order-linked customer burger o l n e at = rw (e, at) refl

-- What issue_order leaves of the queue `xs`.
pub record IsIssued (customer : ℕ) (burger : Burger) (o : Orders) (xs : List ℕ) (r : ℕ × Orders)
    : Type 0 where
  pub new : r.0 ≡ o.fresh
  pub written : r.1.nodes r.0 ≡ some (new_node customer burger)
  pub bound : r.1.fresh ≡ o.fresh + 1
  pub queue : IsQueue r.1 (xs ++ r.0 ∷ [])

-- On a list of orders `xs`, issue_order ends with no access to freed memory, and the list is `xs` with a new node behind it that holds the order.
pub issue_order-IsIssued :
    (customer : ℕ) (burger : Burger) (o : Orders) (xs : List ℕ)
    → IsQueue o xs
    → Returns (IsIssued customer burger o xs) (issue_order customer burger o)
issue_order-IsIssued customer burger o [] q =
    subst (Returns (IsIssued customer burger o []))
      (sym (issue_order_empty customer burger o q.tail_last))
      (record {
        new = refl;
        written = rw (eq→== o.fresh o.fresh refl) refl;
        bound = refl;
        queue = record {
          head_first = refl;
          tail_last = refl;
          chain = (omega arith, new_node customer burger, rw (eq→== o.fresh o.fresh refl) refl);
          counted = omega (arith, q.counted);
        };
      })
issue_order-IsIssued customer burger o (x ∷ xs) q =
    let (l, e, below, above, (n, at)) = Chain-last o.nodes o.fresh x xs q.chain in
    subst (Returns (IsIssued customer burger o (x ∷ xs)))
      (sym (issue_order-linked customer burger o l n (q.tail_last ∙ e) at))
      (record {
        new = refl;
        written =
            linked-new o.nodes o.fresh l n (new_node customer burger)
              (λ f. omega (arith, f, below));
        bound = refl;
        queue = record {
          head_first = q.head_first;
          tail_last = sym (last-append (x ∷ xs) o.fresh);
          chain = Chain-extend o.nodes o.fresh x xs l n (new_node customer burger) q.chain e;
          counted = omega (arith, q.counted, length-append (x ∷ xs) (o.fresh ∷ []));
        };
      })

abbrev pub rest : List ℕ → List ℕ
rest [] = []
rest (x ∷ xs) = xs

-- What get_order leaves of the queue `xs`.
pub record IsTaken (o : Orders) (xs : List ℕ) (r : Option ℕ × Orders) : Type 0 where
  pub oldest : r.0 ≡ first xs
  pub memory : r.1.nodes ≡ o.nodes
  pub bound : r.1.fresh ≡ o.fresh
  pub queue : IsQueue r.1 (rest xs)

get_order_nothing : (o : Orders) → o.head ≡ none → get_order o ≡ ok (none, o)
unfolding get_order
get_order_nothing o e = rw e refl

get_order_single :
    (o : Orders) (x : ℕ)
    → o.head ≡ some x
    → o.tail ≡ some x
    → get_order o ≡ ok (some x, record o { head = none; tail = none; count = decrement o.count })
unfolding get_order
get_order_single o x e f = ground (arith, e, f)

get_order_several :
    (o : Orders) (x l : ℕ) (n : Node)
    → o.head ≡ some x
    → o.tail ≡ some l
    → x ≢ l
    → o.nodes x ≡ some n
    → get_order o ≡ ok (some x, record o { head = n.next; count = decrement o.count })
unfolding get_order
get_order_several o x l n e f other at = ground (arith, e, f, at)

-- On a list of orders `xs`, get_order ends with no access to freed memory. It returns the oldest order, or NULL if there is none, and the list is `xs` without it.
pub get_order-IsTaken :
    (o : Orders) (xs : List ℕ) → IsQueue o xs → Returns (IsTaken o xs) (get_order o)
get_order-IsTaken o [] q =
    subst (Returns (IsTaken o [])) (sym (get_order_nothing o q.head_first))
      (record { oldest = refl; memory = refl; bound = refl; queue = q })
get_order-IsTaken o (x ∷ []) q =
    subst (Returns (IsTaken o (x ∷ []))) (sym (get_order_single o x q.head_first q.tail_last))
      (record {
        oldest = refl;
        memory = refl;
        bound = refl;
        queue = record {
          head_first = refl;
          tail_last = refl;
          chain = tt;
          counted = omega (arith, q.counted);
        };
      })
get_order-IsTaken o (x ∷ y ∷ ys) q =
    let (l, e, below, above, alive) = Chain-last o.nodes o.fresh y ys q.chain.2 in
    let (n, at, next) = q.chain.1 in
    subst (Returns (IsTaken o (x ∷ y ∷ ys)))
      (sym (
        get_order_several o x l n q.head_first (q.tail_last ∙ e)
          (λ f. omega (arith, f, above, q.chain.0)) at))
      (record {
        oldest = refl;
        memory = refl;
        bound = refl;
        queue = record {
          head_first = next;
          tail_last = q.tail_last;
          chain = q.chain.2;
          counted = omega (arith, q.counted);
        };
      })
