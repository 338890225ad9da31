-- ===== src/Vllm.antt =====
-- vllm_port/smollm3.py: the SmolLM3 model for vLLM.
pub mod Rope
pub mod Layers
pub mod Shapes
pub mod Weights
pub mod Modules
pub mod Build
