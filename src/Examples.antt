-- ===== src/Examples.antt =====
-- The theorems at concrete inputs, and tests of the definitions.
mod Lists
mod Heaps
mod Faults
mod Texts
mod Turns
mod Kernel
mod Consoles
mod Disks
mod Prints
mod Lives
mod Loads
mod Numbers
mod Boots
mod Flags
