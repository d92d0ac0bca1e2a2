-- ===== src/Schema/NodeKindEnum.antt =====
-- `NodeKind` of src/hdl_kgraph/schema.py. `MODULE`, `PACKAGE` and `INSTANCE` are spelled with `_kind`,
-- since those words are taken here.
use hdl_kgraph.Base.{
  ◌≡◌, refl, ap, ◌↔◌, Bool, true, Option, none, some, List, [], ◌∷◌, Text, codes, Eq, ◌==◌, ==_iff,
  nat_eq, list_eq, list_beq, if◌then◌else◌,
}

pub data NodeKind : Type 0 where
  file filelist library module_kind program interface modport package_kind : NodeKind
  checker primitive entity architecture vhdl_package package_body configuration context : NodeKind
  function task process generate_block class constraint covergroup coverpoint : NodeKind
  property sequence assertion clocking_block port parameter signal typedef : NodeKind
  struct enum enum_member instance_kind macro include_file clock timing_constraint : NodeKind
  power_domain scenario action : NodeKind

-- The text of the member, `NodeKind.X.value`.
unfoldable pub value : NodeKind → Text
value NodeKind.file = codes "file"
value NodeKind.filelist = codes "filelist"
value NodeKind.library = codes "library"
value NodeKind.module_kind = codes "module"
value NodeKind.program = codes "program"
value NodeKind.interface = codes "interface"
value NodeKind.modport = codes "modport"
value NodeKind.package_kind = codes "package"
value NodeKind.checker = codes "checker"
value NodeKind.primitive = codes "primitive"
value NodeKind.entity = codes "entity"
value NodeKind.architecture = codes "architecture"
value NodeKind.vhdl_package = codes "vhdl_package"
value NodeKind.package_body = codes "package_body"
value NodeKind.configuration = codes "configuration"
value NodeKind.context = codes "context"
value NodeKind.function = codes "function"
value NodeKind.task = codes "task"
value NodeKind.process = codes "process"
value NodeKind.generate_block = codes "generate_block"
value NodeKind.class = codes "class"
value NodeKind.constraint = codes "constraint"
value NodeKind.covergroup = codes "covergroup"
value NodeKind.coverpoint = codes "coverpoint"
value NodeKind.property = codes "property"
value NodeKind.sequence = codes "sequence"
value NodeKind.assertion = codes "assertion"
value NodeKind.clocking_block = codes "clocking_block"
value NodeKind.port = codes "port"
value NodeKind.parameter = codes "parameter"
value NodeKind.signal = codes "signal"
value NodeKind.typedef = codes "typedef"
value NodeKind.struct = codes "struct"
value NodeKind.enum = codes "enum"
value NodeKind.enum_member = codes "enum_member"
value NodeKind.instance_kind = codes "instance"
value NodeKind.macro = codes "macro"
value NodeKind.include_file = codes "include_file"
value NodeKind.clock = codes "clock"
value NodeKind.timing_constraint = codes "timing_constraint"
value NodeKind.power_domain = codes "power_domain"
value NodeKind.scenario = codes "scenario"
value NodeKind.action = codes "action"

-- The members in the order of the class body.
abbrev members : List NodeKind
members =
    NodeKind.file ∷ NodeKind.filelist ∷ NodeKind.library ∷ NodeKind.module_kind ∷ NodeKind.program
    ∷ NodeKind.interface ∷ NodeKind.modport ∷ NodeKind.package_kind ∷ NodeKind.checker
    ∷ NodeKind.primitive ∷ NodeKind.entity ∷ NodeKind.architecture ∷ NodeKind.vhdl_package
    ∷ NodeKind.package_body ∷ NodeKind.configuration ∷ NodeKind.context ∷ NodeKind.function
    ∷ NodeKind.task ∷ NodeKind.process ∷ NodeKind.generate_block ∷ NodeKind.class
    ∷ NodeKind.constraint ∷ NodeKind.covergroup ∷ NodeKind.coverpoint ∷ NodeKind.property
    ∷ NodeKind.sequence ∷ NodeKind.assertion ∷ NodeKind.clocking_block ∷ NodeKind.port
    ∷ NodeKind.parameter ∷ NodeKind.signal ∷ NodeKind.typedef ∷ NodeKind.struct ∷ NodeKind.enum
    ∷ NodeKind.enum_member ∷ NodeKind.instance_kind ∷ NodeKind.macro ∷ NodeKind.include_file
    ∷ NodeKind.clock ∷ NodeKind.timing_constraint ∷ NodeKind.power_domain ∷ NodeKind.scenario
    ∷ NodeKind.action ∷ []

find : Text → List NodeKind → Option NodeKind
find t [] = none
find t (k ∷ ks) = if value k == t then some k else find t ks

-- `NodeKind(text)`: the member with that value, and `none` for its `ValueError`.
unfoldable pub from_value : Text → Option NodeKind
unfolding value find list_beq
from_value t = find t members

pub from_value-value : (k : NodeKind) → from_value (value k) ≡ some k
unfolding from_value
from_value-value NodeKind.file = refl
from_value-value NodeKind.filelist = refl
from_value-value NodeKind.library = refl
from_value-value NodeKind.module_kind = refl
from_value-value NodeKind.program = refl
from_value-value NodeKind.interface = refl
from_value-value NodeKind.modport = refl
from_value-value NodeKind.package_kind = refl
from_value-value NodeKind.checker = refl
from_value-value NodeKind.primitive = refl
from_value-value NodeKind.entity = refl
from_value-value NodeKind.architecture = refl
from_value-value NodeKind.vhdl_package = refl
from_value-value NodeKind.package_body = refl
from_value-value NodeKind.configuration = refl
from_value-value NodeKind.context = refl
from_value-value NodeKind.function = refl
from_value-value NodeKind.task = refl
from_value-value NodeKind.process = refl
from_value-value NodeKind.generate_block = refl
from_value-value NodeKind.class = refl
from_value-value NodeKind.constraint = refl
from_value-value NodeKind.covergroup = refl
from_value-value NodeKind.coverpoint = refl
from_value-value NodeKind.property = refl
from_value-value NodeKind.sequence = refl
from_value-value NodeKind.assertion = refl
from_value-value NodeKind.clocking_block = refl
from_value-value NodeKind.port = refl
from_value-value NodeKind.parameter = refl
from_value-value NodeKind.signal = refl
from_value-value NodeKind.typedef = refl
from_value-value NodeKind.struct = refl
from_value-value NodeKind.enum = refl
from_value-value NodeKind.enum_member = refl
from_value-value NodeKind.instance_kind = refl
from_value-value NodeKind.macro = refl
from_value-value NodeKind.include_file = refl
from_value-value NodeKind.clock = refl
from_value-value NodeKind.timing_constraint = refl
from_value-value NodeKind.power_domain = refl
from_value-value NodeKind.scenario = refl
from_value-value NodeKind.action = refl

value_injective : (a b : NodeKind) → value a ≡ value b → a ≡ b
value_injective a b h = cc (from_value-value a, from_value-value b, h)

pub beq : NodeKind → NodeKind → Bool
beq a b = value a == value b

pub beq_iff : (a b : NodeKind) → (beq a b ≡ true) ↔ (a ≡ b)
unfolding beq
beq_iff a b = (λ h. value_injective a b ((==_iff _ _).0 h), λ e. (==_iff _ _).1 (ap value e))

-- `is` on members.
instance abbrev pub node_kind_eq : Eq NodeKind
node_kind_eq = record { beq = beq; beq_iff = beq_iff }
