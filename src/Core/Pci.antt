-- ===== src/Core/Pci.antt =====
-- kernel/src/Core/PCI.c and ACPI.c. Configuration space and the firmware's tables are parameters:
-- functions from an address to what lies there.
pub mod Find
use os_tk.Base.{
  ℕ, zero, suc, ◌+◌, ◌-◌, ◌*◌, ◌/◌, ◌^◌, Bool, not, ◌||◌, ◌==◌, ltb, if◌then◌else◌, none, some,
  List, [], ◌∷◌, codes, get_or, u32, u64, sub_u64,
}
use os_tk.Libc.Bytes.{Bytes}
use os_tk.Libc.Stdlib.{itoa}
use os_tk.Paging.Tables.{Mapper, map_memory}
use os_tk.Drivers.Console.{Console, print_string, new_line}

-- What the name functions return: a literal, or the buffer that `itoa(code, buffer, 16)` filled.
pub data Name : Type 0 where
  known : List ℕ → Name
  in_hex : ℕ → Name

-- The text of a name; a 16-bit code has at most four digits.
abbrev text_at : ℕ → ℕ → Bytes → List ℕ
text_at zero p m = []
text_at (suc fuel) p m = if m p == 0 then [] else m p ∷ text_at fuel (p + 1) m

pub text : Name → List ℕ
text (known t) = t
text (in_hex code) = elim (itoa 6 code 1 16 (λ a. 0)) [ none ↦ [] | some m ↦ text_at 6 1 m ]

-- A `switch` of returns, and the text of the code after it.
abbrev Cases : Type 0
Cases = List (ℕ × List ℕ)

abbrev name_of : Cases → ℕ → ℕ → Name
name_of [] key code = in_hex code
name_of ((k, t) ∷ cs) key code = if key == k then known t else name_of cs key code

pub mass_storage_controller_name : ℕ → Name
mass_storage_controller_name code =
    name_of
      ((0x00, codes "SCSI Bus Controller")
        ∷ (0x01, codes "IDE Controller")
        ∷ (0x02, codes "Floppy Disk Controller")
        ∷ (0x03, codes "IPI Bus Controller")
        ∷ (0x04, codes "RAID Controller")
        ∷ (0x05, codes "ATA Controller")
        ∷ (0x06, codes "Serial ATA")
        ∷ (0x07, codes "Serial Attached SCSI")
        ∷ (0x08, codes "Non-Volatile Memory Controller")
        ∷ (0x80, codes "Other")
        ∷ [])
      code code

pub serial_bus_controller_name : ℕ → Name
serial_bus_controller_name code =
    name_of
      ((0x00, codes "FireWire (IEEE 1394) Controller")
        ∷ (0x01, codes "ACCESS Bus")
        ∷ (0x02, codes "SSA")
        ∷ (0x03, codes "USB Controller")
        ∷ (0x04, codes "Fibre Channel")
        ∷ (0x05, codes "SMBus")
        ∷ (0x06, codes "Infiniband")
        ∷ (0x07, codes "IPMI Interface")
        ∷ (0x08, codes "SERCOS Interface (IEC 61491)")
        ∷ (0x09, codes "CANbus")
        ∷ (0x80, codes "SerialBusController - Other")
        ∷ [])
      code code

pub bridge_device_name : ℕ → Name
bridge_device_name code =
    name_of
      ((0x00, codes "Host Bridge")
        ∷ (0x01, codes "ISA Bridge")
        ∷ (0x02, codes "EISA Bridge")
        ∷ (0x03, codes "MCA Bridge")
        ∷ (0x04, codes "PCI-to-PCI Bridge")
        ∷ (0x05, codes "PCMCIA Bridge")
        ∷ (0x06, codes "NuBus Bridge")
        ∷ (0x07, codes "CardBus Bridge")
        ∷ (0x08, codes "RACEway Bridge")
        ∷ (0x09, codes "PCI-to-PCI Bridge")
        ∷ (0x0a, codes "InfiniBand-to-PCI Host Bridge")
        ∷ (0x80, codes "Other")
        ∷ [])
      code code

abbrev device_classes : List (List ℕ)
device_classes =
    codes "Unclassified"
    ∷ codes "Mass Storage Controller"
    ∷ codes "Network Controller"
    ∷ codes "Display Controller"
    ∷ codes "Multimedia Controller"
    ∷ codes "Memory Controller"
    ∷ codes "Bridge Device"
    ∷ codes "Simple Communication Controller"
    ∷ codes "Base System Peripheral"
    ∷ codes "Input Device Controller"
    ∷ codes "Docking Station"
    ∷ codes "Processor"
    ∷ codes "Serial Bus Controller"
    ∷ codes "Wireless Controller"
    ∷ codes "Intelligent Controller"
    ∷ codes "Satellite Communication Controller"
    ∷ codes "Encryption Controller"
    ∷ codes "Signal Processing Controller"
    ∷ codes "Processing Accelerator"
    ∷ codes "Non Essential Instrumentation"
    ∷ []

pub pci_get_vendor_name : ℕ → Name
pci_get_vendor_name vendor_id =
    name_of
      ((0x8086, codes "Intel Corp.") ∷ (0x1022, codes "AMD") ∷ (0x10DE, codes "NVIDIA Corp.") ∷ [])
      vendor_id vendor_id

pub pci_get_device_name : ℕ → ℕ → Name
pci_get_device_name vendor_id device_id =
    if vendor_id == 0x086
    then name_of
        ((0x29C0, codes "Express DRAM Controller")
          ∷ (0x2918, codes "LPC Interface Controller")
          ∷ (0x2922, codes "6 port SATA Controller [ACHI MODE]")
          ∷ (0x2930, codes "SMBus Controller")
          ∷ [])
        device_id device_id
    else in_hex device_id

pub pci_get_subclass_name : ℕ → ℕ → Name
pci_get_subclass_name class_code subclass_code =
    if class_code == 0x01
    then mass_storage_controller_name subclass_code
    else if class_code == 0x03
    then name_of ((0x00, codes "VGA Compatible Controller") ∷ []) subclass_code subclass_code
    else if class_code == 0x06
    then bridge_device_name subclass_code
    else if class_code == 0x0C
    then serial_bus_controller_name subclass_code
    else in_hex subclass_code

pub pci_get_prog_if_name : ℕ → ℕ → ℕ → Name
pci_get_prog_if_name class_code subclass_code prog_if =
    if class_code == 0x01
    then (if subclass_code == 0x06
        then name_of
            ((0x00, codes "Vendor Specific Interface")
              ∷ (0x01, codes "AHCI 1.0")
              ∷ (0x02, codes "Serial Storage Bus")
              ∷ [])
            prog_if prog_if
        else in_hex prog_if)
    else if class_code == 0x03
    then (if subclass_code == 0x00
        then name_of
            ((0x00, codes "VGA Controller") ∷ (0x01, codes "8514-Compatible Controller") ∷ [])
            prog_if prog_if
        else in_hex prog_if)
    else if class_code == 0x0C
    then (if subclass_code == 0x03
        then name_of
            ((0x00, codes "UHCI Controller")
              ∷ (0x10, codes "OHCI Controller")
              ∷ (0x20, codes "EHCI (USB2) Controller")
              ∷ (0x30, codes "XHCI (USB3) Controller")
              ∷ (0x80, codes "Unspecified")
              ∷ (0xFE, codes "USB Device (Not a Host Controller)")
              ∷ [])
            prog_if prog_if
        else in_hex prog_if)
    else in_hex prog_if

-- The fields of `PCI_DeviceHeader` that are read.
pub record DeviceHeader : Type 0 where
  pub vendor_id : ℕ
  pub device_id : ℕ
  pub prog_interface_byte : ℕ
  pub subclass : ℕ
  pub class : ℕ

-- The fields of `ACPI_DeviceConfig` that are read.
pub record DeviceConfig : Type 0 where
  pub base_address : ℕ
  pub start_bus : ℕ
  pub end_bus : ℕ

abbrev is_absent : DeviceHeader → Bool
is_absent h = (h.device_id == 0) || (h.device_id == 0xFFFF)

-- The rounds of a loop up to an `int`.
abbrev pub rounds : ℕ → ℕ
rounds n = if ltb (u32 n) (2 ^ 31) then u32 n else 0

-- `outside` is what lies behind `DeviceClasses`, which has 20 entries.
module _ (header_at : ℕ → DeviceHeader) (outside : List ℕ) where
  pub enumerate_function : (device_address function : ℕ) → Mapper × Console → Mapper × Console
  enumerate_function device_address function (m, c) =
      let address = u64 (device_address + u64 (function * 2 ^ 12)) in
      let mapped = map_memory address address m in
      let h = header_at address in
      let colon = print_string (codes " : ") in
      let print = λ (n : Name). print_string (text n) in
      let c1 = colon (print (pci_get_vendor_name h.vendor_id) c) in
      let c2 = colon (print (pci_get_device_name h.vendor_id h.device_id) c1) in
      let c3 = colon (print_string (get_or device_classes h.class outside) c2) in
      let c4 = colon (print (pci_get_subclass_name h.class h.subclass) c3) in
      let c5 = print (pci_get_prog_if_name h.class h.subclass h.prog_interface_byte) c4 in
      if is_absent h then (mapped, c) else (mapped, new_line c5)

  abbrev functions : (device_address left function : ℕ) → Mapper × Console → Mapper × Console
  functions device_address zero function s = s
  functions device_address (suc left) function s =
      functions device_address left (function + 1) (enumerate_function device_address function s)

  pub enumerate_device : (bus_address device : ℕ) → Mapper × Console → Mapper × Console
  enumerate_device bus_address device (m, c) =
      let address = u64 (bus_address + u64 (device * 2 ^ 15)) in
      let mapped = map_memory address address m in
      if is_absent (header_at address) then (mapped, c) else functions address 8 0 (mapped, c)

  abbrev devices : (bus_address left device : ℕ) → Mapper × Console → Mapper × Console
  devices bus_address zero device s = s
  devices bus_address (suc left) device s =
      devices bus_address left (device + 1) (enumerate_device bus_address device s)

  pub enumerate_bus : (base_address bus : ℕ) → Mapper × Console → Mapper × Console
  enumerate_bus base_address bus (m, c) =
      let address = u64 (base_address + u64 (bus * 2 ^ 20)) in
      let mapped = map_memory address address m in
      if is_absent (header_at address) then (mapped, c) else devices address 32 0 (mapped, c)

  abbrev buses : (base_address left bus : ℕ) → Mapper × Console → Mapper × Console
  buses base_address zero bus s = s
  buses base_address (suc left) bus s =
      buses base_address left (bus + 1) (enumerate_bus base_address bus s)

  abbrev configs : (config : ℕ → DeviceConfig) → (left i : ℕ) → Mapper × Console → Mapper × Console
  configs config zero i s = s
  configs config (suc left) i s =
      let d = config i in
      configs config left (i + 1) (buses d.base_address (d.end_bus - d.start_bus) d.start_bus s)

  -- `EnumeratePCI` of a table of `size` bytes: `config i` is the device configuration at
  -- `mcfg + 44 + 16 * i`.
  pub enumerate_pci : (config : ℕ → DeviceConfig) → (size : ℕ) → Mapper × Console → Mapper × Console
  enumerate_pci config size s = configs config (rounds (sub_u64 size 44 / 16)) 0 s

-- The loop of `ACPI_FindTable`, with `left` of the table's entries to go. `entry i` is the pointer
-- that it holds, `character a i` is `signature[i]` of the header at `a`. The loop over `j` tests
-- the same condition in each round.
abbrev pub find_entry :
    (entry : ℕ → ℕ) (character : ℕ → ℕ → ℕ) (signature : ℕ → ℕ) → (left i : ℕ) → ℕ
find_entry entry character signature zero i = 0
find_entry entry character signature (suc left) i =
    let rest = find_entry entry character signature left (i + 1) in
    if not (character (entry i) i == signature i) then rest else if i == 3 then entry i else rest

-- `ACPI_FindTable` in a table of `size` bytes.
pub find_table : (entry : ℕ → ℕ) (character : ℕ → ℕ → ℕ) (signature : ℕ → ℕ) → (size : ℕ) → ℕ
find_table entry character signature size =
    find_entry entry character signature (rounds (sub_u64 size 36 / 8)) 0
